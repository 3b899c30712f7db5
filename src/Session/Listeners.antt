-- ===== src/Session/Listeners.antt =====
-- lib/sync-engine.js: what the engine does on the events of its WebSocket client (the listeners that
-- start() registers), and what joins the apply chain.
use hermitstash_sync.Prelude.{
  ℕ, Bool, true, false, not, ◌&&◌, ◌||◌, List, [], ◌∷◌, ◌++◌, if◌then◌else◌, Text, ◌==◌, ◌+◌,
}
use hermitstash_sync.Engine.State.{
  Engine, SyncState, catching_up, error, reconnecting, is_disconnected,
}
use hermitstash_sync.Engine.Cursor.{last_seq, set_state}
use hermitstash_sync.Socket.Client.{
  Net, Socket, Emitted, open_event, message_event, close_event, error_event, upgrade_rejected,
  auth_error, reconnecting_event, Input, step,
}

-- A link of `_applyChain`.
pub data Task : Type 0 where
  baseline_task initial_sync_task recover_task rescan_task : Task
  message_task : Text → Task

-- The configuration of the connection.
pub record Setup : Type 0 where
  pub net : Net
  pub bundle_id : Text
  pub has_share_id : Bool

-- The engine with its client, the links of the chain that have not run, the oldest first, and how
-- often it emitted 'auth_error'. The events that the client emitted have been heard.
pub record Session : Type 0 where
  pub engine : Engine
  pub socket : Socket
  pub chain : List Task
  pub terminal_upgrade_reject : Bool
  pub reconcile_queued : Bool
  pub resync_in_flight : Bool
  pub auth_errors : ℕ

abbrev pub in_state : SyncState → Session → Session
in_state state s = record s { engine = set_state state s.engine }

abbrev pub enqueue : Task → Session → Session
enqueue task s = record s { chain = s.chain ++ (task ∷ []) }

-- `_enqueueRecover`, `_enqueueLocalRescan`
abbrev pub enqueue_recover : Session → Session
enqueue_recover s = if s.engine.stopped then s else enqueue recover_task s

abbrev pub enqueue_local_rescan : Session → Session
enqueue_local_rescan s = if s.engine.stopped then s else enqueue rescan_task s

-- `_enqueueReconcile`, the timer's; its link clears the mark when it has run.
unfoldable pub enqueue_reconcile : Session → Session
enqueue_reconcile s =
    if s.engine.stopped || s.reconcile_queued
    then s
    else record (enqueue recover_task s) { reconcile_queued = true }

abbrev pub was_down : SyncState → Bool
was_down error = true
was_down reconnecting = true
was_down _ = false

abbrev pub begin_catch_up : Engine → Engine
begin_catch_up e = record e {
  state = catching_up;
  caught_up = false;
  catch_up_tip = 0;
  lowest_unapplied = 0;
}

-- The listener of 'open'.
unfoldable pub on_ws_open : Setup → Session → Session
on_ws_open setup s =
    let first = last_seq s.engine == 0 && setup.has_share_id in
    let begun = record s { engine = begin_catch_up s.engine } in
    let synced_first = if first then enqueue initial_sync_task begun else begun in
    let recovering = enqueue_recover synced_first in
    if was_down s.engine.state && not first then enqueue_local_rescan recovering else recovering

-- `_onServerMessage`
unfoldable pub on_server_message : Text → Session → Session
on_server_message msg s = if s.engine.stopped then s else enqueue (message_task msg) s

-- The listener of 'close'.
unfoldable pub on_ws_close : Session → Session
on_ws_close s =
    if s.terminal_upgrade_reject
    then s
    else if not (is_disconnected s.engine.state)
    then in_state reconnecting s
    else s

-- `_onUpgradeRejected`
unfoldable pub on_upgrade_rejected : ℕ → Session → Session
on_upgrade_rejected status s =
    if status == 401 || status == 403
    then s
    else in_state error (record s { terminal_upgrade_reject = true })

-- The listener of 'auth_error'.
unfoldable pub on_auth_error : Session → Session
on_auth_error s = record (in_state error s) { auth_errors = s.auth_errors + 1 }

-- The listener of each event.
unfoldable pub hear : Setup → Emitted → Session → Session
hear setup open_event s = on_ws_open setup s
hear setup (message_event msg) s = on_server_message msg s
hear setup close_event s = on_ws_close s
hear setup (error_event code) s = in_state error s
hear setup (upgrade_rejected status) s = on_upgrade_rejected status s
hear setup (auth_error status) s = on_auth_error s
hear setup (reconnecting_event attempt) s = in_state reconnecting s

-- The events come newest first.
unfoldable pub hear_all : Setup → List Emitted → Session → Session
hear_all setup [] s = s
hear_all setup (ev ∷ evs) s = hear setup ev (hear_all setup evs s)

abbrev pub silent : Socket → Socket
silent socket = record socket { emitted = [] }

-- One input of the client, and the engine's hearing of what it emits. No listener reads or calls the
-- client, so that it does not matter that the events are heard when the client is done.
unfoldable pub socket_step : Setup → Input → Session → Session
socket_step setup i s =
    let socket = step setup.net i (silent s.socket) in
    hear_all setup socket.emitted (record s { socket = silent socket })

unfoldable pub socket_run : Setup → List Input → Session → Session
socket_run setup [] s = s
socket_run setup (i ∷ is) s = socket_run setup is (socket_step setup i s)
