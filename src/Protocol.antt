-- ===== src/Protocol.antt =====
-- The wire format between server and client: pkg/protocol.
pub mod Message
pub mod Http
pub mod RoundTrip
pub mod Wire
mod Tests
