-- ===== src/Ws.antt =====
-- src/c_http_ws.c: WebSockets, server side.
pub mod Base64
pub mod Rfc
pub mod Session
pub mod Send
pub mod Parse
