-- ===== src/Socket.antt =====
-- lib/ws-client.js: the WebSocket wrapper that dials the server, tells the engine what happens on the
-- connection, and dials again after a drop.
pub mod Floor
pub mod Errors
pub mod Backoff
pub mod Client
pub mod Single
pub mod Shut
pub mod Retry
pub mod Fresh
