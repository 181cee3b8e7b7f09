-- ===== src/Http.antt =====
-- What the code uses of Go's net/http and net: headers, status texts, requests, responses, and
-- host:port addresses.
pub mod Header
pub mod Forward
pub mod Status
pub mod Address
mod Tests
