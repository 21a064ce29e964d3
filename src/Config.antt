-- ===== src/Config.antt =====
-- The package config: which versions of the program can talk to each other.
pub mod Version
pub mod Args
pub mod Launch
pub mod Text
pub mod Services
mod Tests
