-- ===== src/Session/Hidden.antt =====
-- lib/sync-engine.js: the error of a refused handshake, and a download that ends after it.
use hermitstash_sync.Engine.State.{Engine}
use hermitstash_sync.Session.Listeners.{Session}
