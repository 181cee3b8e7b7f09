-- ===== src/Server.antt =====
-- The server: pkg/server.
pub mod Conn
pub mod Writer
pub mod Route
pub mod State
pub mod Tunnel
pub mod Polling
pub mod Limits
pub mod Public
pub mod System
pub mod Proxy
pub mod Serve
pub mod Connection
mod Tests
