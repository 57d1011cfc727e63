-- ===== src/Http.antt =====
-- src/c_http.c: the HTTP server.
pub mod Fields
pub mod Method
pub mod Headers
pub mod Json
pub mod Token
pub mod Status
pub mod Response
pub mod Receive
pub mod Client
pub mod Accept
pub mod Query
pub mod RequestLine
pub mod HeaderBlock
pub mod Route
pub mod Tests
