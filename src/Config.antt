-- ===== src/Config.antt =====
-- lib/config.js: what the configuration must be for the daemon to run on it.
pub mod Validate
pub mod Valid
pub mod Patterns
