-- ===== src/Client.antt =====
-- The clients: pkg/client.
pub mod Url
pub mod Stream
pub mod Reconnect
pub mod Poll
pub mod Tunnel
mod Tests
