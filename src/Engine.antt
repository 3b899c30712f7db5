-- ===== src/Engine.antt =====
-- lib/sync-engine.js: the sync engine. Its state, the world around it, and one module for each part.
pub mod State
pub mod Suppress
pub mod Cursor
pub mod Download
pub mod Conflict
pub mod Inbound
pub mod Local
pub mod Recover
pub mod Walk
pub mod Initial
pub mod Rescan
