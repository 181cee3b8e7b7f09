-- ===== src/Config.antt =====
-- The configuration of all modes: pkg/config.
pub mod Types
pub mod Merge
pub mod Load
pub mod Save
pub mod Precedence
pub mod Unchanged
mod Tests
