-- ===== src/Watcher.antt =====
-- lib/watcher.js: the wrapper around the framework's file watcher, which starts it again after a fatal
-- error.
pub mod Patterns
pub mod Forwarded
pub mod Handle
pub mod Steps
pub mod Sound
pub mod Revive
pub mod Comeback
pub mod Silent
