-- ===== src/Session/Lifecycle.antt =====
-- lib/sync-engine.js: start, stop and resync. The waits for transfers in flight split stop and resync
-- in two, and what those transfers still do happens in between. Not here: the probe of the volume, the
-- integrity check, the client certificate, the temporary files, and the watcher.
use hermitstash_sync.Prelude.{ℕ, true, false, [], if◌then◌else◌}
use hermitstash_sync.Engine.State.{Engine, connecting, disconnected}
use hermitstash_sync.Engine.Cursor.{last_seq}
use hermitstash_sync.StateDb.Meta.{clear_all}
use hermitstash_sync.Socket.Client.{connects, shuts, fresh}
use hermitstash_sync.Session.Listeners.{
  Setup, Session, baseline_task, enqueue, enqueue_recover, in_state, socket_step,
}

-- `_ws.connect`, by which the client has its sequence number.
abbrev pub connect_ws : Setup → ℕ → Session → Session
connect_ws setup since s =
    socket_step setup (connects setup.bundle_id since)
      (record s { engine = record s.engine { ws_since = since } })

-- `start`
unfoldable pub start : Setup → Session → Session
start setup s =
    let up = record s.engine { stopped = false; has_http = true; has_ws = true } in
    let ready =
      enqueue baseline_task
        (record s { engine = up; socket = fresh; terminal_upgrade_reject = false }) in
    enqueue_recover (connect_ws setup (last_seq s.engine) (in_state connecting ready))

-- `stop`, up to its waits.
unfoldable pub stop_begin : Session → Session
stop_begin s = record s {
  engine = record s.engine { stopped = true; state = disconnected; pending_deletes = [] };
  chain = [];
}

-- `stop`, after its waits.
unfoldable pub stop_finish : Setup → Session → Session
stop_finish setup s =
    let closed = if s.engine.has_ws then socket_step setup shuts s else s in
    record closed { engine = record closed.engine { has_ws = false; has_http = false } }

-- `resync` and `_resyncOnce`, up to the waits.
unfoldable pub resync_begin : Session → Session
resync_begin s = if s.engine.stopped then s else if s.resync_in_flight then s else record s {
  engine = record s.engine { resyncing = true; pending_deletes = [] };
  chain = [];
  terminal_upgrade_reject = false;
  resync_in_flight = true;
}

abbrev pub wiped : Engine → Engine
wiped e = record e {
  active_downloads = 0;
  catch_up_pending = 0;
  caught_up = false;
  catch_up_tip = 0;
  lowest_unapplied = 0;
  held = λ key. 0;
  permanent_failures = [];
  db = clear_all e.db;
  resyncing = false;
}

-- The client closed, and connected for all events.
abbrev pub redial : Setup → Session → Session
redial setup s = connect_ws setup 0 (in_state connecting (socket_step setup shuts s))

-- `_resyncOnce`, after its waits.
unfoldable pub resync_finish : Setup → Session → Session
resync_finish setup s =
    let empty = record s { engine = wiped s.engine; chain = []; resync_in_flight = false } in
    if s.engine.has_ws then redial setup empty else empty
