-- ===== src/Session.antt =====
-- lib/sync-engine.js with lib/ws-client.js: the engine as the listener of its WebSocket client, and
-- its start, stop and resync.
pub mod Listeners
pub mod Lifecycle
pub mod Refused
pub mod Resync
pub mod Reopen
pub mod Hidden
