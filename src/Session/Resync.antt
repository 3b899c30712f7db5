-- ===== src/Session/Resync.antt =====
-- lib/sync-engine.js: resync starts from nothing, and a stop in its middle.
use hermitstash_sync.Prelude.{
  ℕ, Bool, true, false, [], ◌∷◌, if◌then◌else◌, Text, ◌≡◌, refl, arith, ◌∙◌, ap, subst,
}
use hermitstash_sync.Engine.State.{Engine, SyncState, connecting}
use hermitstash_sync.Engine.Cursor.{last_seq}
use hermitstash_sync.StateDb.Meta.{clear_all, get_last_seq-clear_all}
use hermitstash_sync.Socket.Client.{Socket, connect, close, connects, shuts, step}
use hermitstash_sync.Socket.Retry.{CanDial, IsLive}
use hermitstash_sync.Socket.Single.{IsSingle, close-IsSingle}
use hermitstash_sync.Socket.Fresh.{connect_starts_over, emitted-close, dials-close, next_dial-cong}
use hermitstash_sync.Session.Lifecycle.{
  connect_ws, stop_begin, stop_finish, resync_begin, resync_finish, wiped, redial,
}
use hermitstash_sync.Session.Refused.{socket_step-eq}
use hermitstash_sync.Session.Listeners.{Setup, Session, in_state, socket_step, silent, hear_all}

shuts-eq :
    (setup : Setup) (s : Session)
    → socket_step setup shuts s ≡ record s { socket = silent (close (silent s.socket)) }
unfolding step hear_all
shuts-eq setup s =
    socket_step-eq setup shuts s (close (silent s.socket)) [] refl (emitted-close (silent s.socket))

connect_ws-eq :
    (setup : Setup) (since : ℕ) (s : Session)
    → CanDial setup.net
    → setup.net.reconnect ≡ true
    → IsSingle s.socket
    → connect_ws setup since s ≡ record s {
      engine = record s.engine { ws_since = since };
      socket = silent (connect setup.net setup.bundle_id since (silent s.socket));
    }
unfolding step hear_all
connect_ws-eq setup since s can on single =
    socket_step-eq setup (connects setup.bundle_id since)
      (record s { engine = record s.engine { ws_since = since } })
      (connect setup.net setup.bundle_id since (silent s.socket)) [] refl
      (connect_starts_over setup.net setup.bundle_id since (silent s.socket) can on single).3

-- The engine knows nothing of what it had synced: no rows, no cursor, no path held, no failure and no
-- count of a transfer.
abbrev pub IsBlank : Engine → Type 0
IsBlank e =
    (e.db.files ≡ [])
    × (last_seq e ≡ 0)
    × ((key : Text) → e.held key ≡ 0)
    × (e.permanent_failures ≡ [])
    × (e.active_downloads ≡ 0)
    × (e.catch_up_pending ≡ 0)
    × (e.caught_up ≡ false)
    × (e.lowest_unapplied ≡ 0)
    × (e.resyncing ≡ false)

wiped-IsBlank : (e : Engine) → IsBlank (wiped e)
unfolding clear_all
wiped-IsBlank e =
    (refl, get_last_seq-clear_all e.db, λ key. refl, refl, refl, refl, refl, refl, refl)

-- The client after the close and the connect of a resync.
abbrev reconnected : Setup → Socket → Socket
reconnected setup socket =
    silent (connect setup.net setup.bundle_id 0 (silent (close (silent socket))))

redial-eq :
    (setup : Setup) (s : Session)
    → CanDial setup.net
    → setup.net.reconnect ≡ true
    → IsSingle s.socket
    → redial setup s ≡ record s {
      engine = record s.engine { state = connecting; ws_since = 0 };
      socket = reconnected setup s.socket;
    }
redial-eq setup s can on single =
    let closed : Session = record s { socket = silent (close (silent s.socket)) } in
    ap (λ (t : Session). connect_ws setup 0 (in_state connecting t)) (shuts-eq setup s)
    ∙ connect_ws-eq setup 0 (in_state connecting closed) can on
        (close-IsSingle (silent s.socket) single)

if-true {ℓ} : {A : Type ℓ} (b : Bool) (x y : A) → b ≡ true → (if b then x else y) ≡ x
if-true true x y h = refl
if-true false x y h = ground (arith, h)

abbrev emptied : Session → Session
emptied s = record s { engine = wiped s.engine; chain = []; resync_in_flight = false }

resync_finish-eq :
    (setup : Setup) (s : Session)
    → CanDial setup.net
    → setup.net.reconnect ≡ true
    → IsSingle s.socket
    → s.engine.has_ws ≡ true
    → resync_finish setup s ≡ record (emptied s) {
      engine = record (wiped s.engine) { state = connecting; ws_since = 0 };
      socket = reconnected setup s.socket;
    }
unfolding resync_finish
resync_finish-eq setup s can on single has_ws =
    if-true s.engine.has_ws (redial setup (emptied s)) (emptied s) has_ws
    ∙ redial-eq setup (emptied s) can on single

-- Whatever the transfers in flight did while resync waited for them, what it then leaves is a blank
-- engine that is connecting, with nothing left to apply, and one dial more, for all the events of the
-- bundle, by the one live client. The files on the disk stay.
pub resync_finish_starts_over :
    (setup : Setup) (s : Session)
    → CanDial setup.net
    → setup.net.reconnect ≡ true
    → IsSingle s.socket
    → s.engine.has_ws ≡ true
    → let s' = resync_finish setup s in
      IsBlank s'.engine
      × (s'.engine.state ≡ connecting)
      × (s'.engine.disk ≡ s.engine.disk)
      × (s'.chain ≡ [])
      × IsLive setup.net s'.socket s.socket.next
      × (s'.socket.dials
          ≡ record { number = s.socket.next; bundle = setup.bundle_id; from = 0 } ∷ s.socket.dials)
resync_finish_starts_over setup s can on single has_ws =
    let closed = silent (close (silent s.socket)) in
    let begun =
      connect_starts_over setup.net setup.bundle_id 0 closed can on
        (close-IsSingle (silent s.socket) single) in
    let (hd, hn) = dials-close (silent s.socket) in
    rw (resync_finish-eq setup s can on single has_ws) (
      wiped-IsBlank s.engine,
      refl,
      refl,
      refl,
      subst (IsLive setup.net (reconnected setup s.socket)) hn begun.0,
      begun.4 ∙ next_dial-cong setup.bundle_id 0 hn hd,
    )

-- A resync that begins.
abbrev begun_resync : Session → Session
begun_resync s = record s {
  engine = record s.engine { resyncing = true; pending_deletes = [] };
  chain = [];
  terminal_upgrade_reject = false;
  resync_in_flight = true;
}

resync_begin-eq :
    (s : Session)
    → s.engine.stopped ≡ false
    → s.resync_in_flight ≡ false
    → resync_begin s ≡ begun_resync s
unfolding resync_begin
resync_begin-eq s running free = rw running (rw free refl)

state-if :
    (b : Bool) (s t : Session) (state : SyncState)
    → s.engine.state ≡ state
    → t.engine.state ≡ state
    → (if b then s else t).engine.state ≡ state
state-if true s t state h h' = h
state-if false s t state h h' = h'

state-stop_finish :
    (setup : Setup) (s : Session) → (stop_finish setup s).engine.state ≡ s.engine.state
unfolding stop_finish
state-stop_finish setup s =
    state-if s.engine.has_ws (socket_step setup shuts s) s s.engine.state
      (ap (λ (t : Session). t.engine.state) (shuts-eq setup s)) refl

-- A stop that comes while resync waits for the transfers does not call it off: resync then empties the
-- tables of the stopped engine, dials the server and shows CONNECTING, and the engine still shows
-- CONNECTING when stop is done.
pub stop_leaves_resync :
    (setup : Setup) (s : Session)
    → CanDial setup.net
    → setup.net.reconnect ≡ true
    → IsSingle s.socket
    → s.engine.has_ws ≡ true
    → s.engine.stopped ≡ false
    → s.resync_in_flight ≡ false
    → let wiping = resync_finish setup (stop_begin (resync_begin s)) in
      (wiping.engine.stopped ≡ true)
      × IsBlank wiping.engine
      × (wiping.socket.dials
          ≡ record { number = s.socket.next; bundle = setup.bundle_id; from = 0 } ∷ s.socket.dials)
      × ((stop_finish setup wiping).engine.state ≡ connecting)
unfolding resync_begin stop_begin stop_finish
stop_leaves_resync setup s can on single has_ws running free =
    let halted = stop_begin (begun_resync s) in
    let (blank, state, _, _, _, dials) =
      resync_finish_starts_over setup halted can on single has_ws in
    let redone = resync_finish-eq setup halted can on single has_ws in
    rw (resync_begin-eq s running free) (
      ap (λ (t : Session). t.engine.stopped) redone,
      blank,
      dials,
      state-stop_finish setup (resync_finish setup halted) ∙ state,
    )
