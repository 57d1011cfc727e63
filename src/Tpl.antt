-- ===== src/Tpl.antt =====
-- src/c_http_tpl.c: the runtime of the compiled templates.
pub mod Buffer
pub mod Escape
pub mod Fragment
pub mod Url
pub mod Tests
