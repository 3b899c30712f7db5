-- ===== src/Session/Refused.antt =====
-- lib/sync-engine.js: a handshake that the server refuses for good.
use hermitstash_sync.Prelude.{
  ℕ, true, false, not, List, [], ◌∷◌, ◌++◌, keep_if, any, ◌==◌, ◌≡◌, refl, arith, ◌∙◌,
}
use hermitstash_sync.Engine.State.{SyncState, error}
use hermitstash_sync.Socket.Errors.{DialError}
use hermitstash_sync.Socket.Client.{
  Net, Socket, Emitted, open_event, message_event, close_event, error_event, upgrade_rejected,
  auth_error, reconnecting_event, on_error, fails, Input, from_client, step, is_terminal, is_auth,
}
use hermitstash_sync.Socket.Shut.{
  is_close, is_connect, NoConnect, step-IsShut, final_status, verdict, on_error_refuses,
}
use hermitstash_sync.Session.Listeners.{
  Setup, Session, in_state, socket_step, silent, socket_run, hear, hear_all, on_ws_close,
  on_upgrade_rejected,
}

-- The rejection stands: the client is shut and the rejection is marked, with this state shown.
abbrev pub Shows : SyncState → Session → Type 0
Shows st s = (s.socket.closing ≡ true) × (s.terminal_upgrade_reject ≡ true) × (s.engine.state ≡ st)

-- The state that is shown is the error.
abbrev pub IsRefused : Session → Type 0
IsRefused s = Shows error s

abbrev OnlyCloses : List Emitted → Type 0
OnlyCloses evs = keep_if (λ ev. not (is_close ev)) evs ≡ []

pub step_fails :
    (net : Net) (c : ℕ) (err : DialError) (s : Socket)
    → any (λ d. d == c) s.wired ≡ true
    → step net (from_client c (fails err)) s ≡ on_error err s
unfolding step
step_fails net c err s heard = rw heard refl

-- One input, when it is known what the client does and emits.
pub socket_step-eq :
    (setup : Setup) (i : Input) (s : Session) (socket : Socket) (evs : List Emitted)
    → step setup.net i (silent s.socket) ≡ socket
    → socket.emitted ≡ evs
    → socket_step setup i s ≡ hear_all setup evs (record s { socket = silent socket })
unfolding socket_step
socket_step-eq setup i s socket evs h he = rw (h, he) refl

hear_closes :
    (setup : Setup) (evs : List Emitted) (s : Session)
    → OnlyCloses evs
    → s.terminal_upgrade_reject ≡ true
    → hear_all setup evs s ≡ s
unfolding hear_all hear on_ws_close
hear_closes setup [] s h refused = refl
hear_closes setup (close_event ∷ evs) s h refused =
    rw (hear_closes setup evs s h refused) (rw refused refl)
hear_closes setup (open_event ∷ evs) s h refused = ground (arith, h)
hear_closes setup (message_event m ∷ evs) s h refused = ground (arith, h)
hear_closes setup (error_event c ∷ evs) s h refused = ground (arith, h)
hear_closes setup (upgrade_rejected n ∷ evs) s h refused = ground (arith, h)
hear_closes setup (auth_error n ∷ evs) s h refused = ground (arith, h)
hear_closes setup (reconnecting_event n ∷ evs) s h refused = ground (arith, h)

socket_step-Shows :
    (st : SyncState) (setup : Setup) (i : Input) (s : Session)
    → is_connect i ≡ false
    → Shows st s
    → Shows st (socket_step setup i s) × ((socket_step setup i s).socket.dials ≡ s.socket.dials)
unfolding socket_step
socket_step-Shows st setup i s h (shut, refused, state) =
    let quiet = record s.socket { emitted = [] } in
    let still = step-IsShut setup.net i quiet h shut in
    let after = step setup.net i quiet in
    rw
      (hear_closes setup after.emitted (record s { socket = record after { emitted = [] } }) still.2
        refused)
      ((still.0, refused, state), still.1)

pub socket_run-Shows :
    (st : SyncState) (setup : Setup) (is : List Input) (s : Session)
    → NoConnect is
    → Shows st s
    → Shows st (socket_run setup is s) × ((socket_run setup is s).socket.dials ≡ s.socket.dials)
unfolding socket_run
socket_run-Shows st setup [] s hs refused = (refused, refl)
socket_run-Shows st setup (i ∷ is) s (h, hs) refused =
    let (now, hd) = socket_step-Shows st setup i s h refused in
    let (later, hd') = socket_run-Shows st setup is (socket_step setup i s) hs now in
    (later, hd' ∙ hd)

hear_verdict :
    (setup : Setup) (err : DialError) (s : Session)
    → is_auth (final_status err) ≡ false
    → hear_all setup (verdict err) s ≡ in_state error (record s { terminal_upgrade_reject = true })
unfolding hear_all hear on_upgrade_rejected
hear_verdict setup err s other = rw other (rw other refl)

append_verdict : (err : DialError) → verdict err ++ [] ≡ verdict err
append_verdict err = ground arith

refuse-IsRefused :
    (setup : Setup) (c : ℕ) (err : DialError) (s : Session)
    → s.socket.closing ≡ false
    → any (λ d. d == c) s.socket.wired ≡ true
    → is_terminal s.socket err ≡ true
    → is_auth (final_status err) ≡ false
    → let s' = socket_step setup (from_client c (fails err)) s in
      IsRefused s' × (s'.socket.dials ≡ s.socket.dials)
refuse-IsRefused setup c err s going heard final other =
    let quiet = record s.socket { emitted = [] } in
    let (shut, hd, he, _) = on_error_refuses err quiet going final in
    rw
      (
        socket_step-eq setup (from_client c (fails err)) s (on_error err quiet) (verdict err)
            (step_fails setup.net c err quiet heard) (he ∙ append_verdict err),
        hear_verdict setup err (record s { socket = silent (on_error err quiet) }) other,
      )
      ((shut, refl, refl), hd)

-- A handshake that the server refuses for good, but not for the credentials, leaves the client shut
-- and the engine in ERROR with the rejection marked. No later input of the WebSocket client, be it an
-- event of a connection, its timer, or a call of the client other than connect, changes the state that
-- is shown or dials. That is of the client's inputs alone: the engine's own transfers, stop and resync
-- are not among them, and they do change the state.
pub refusal_stays_shown :
    (setup : Setup) (c : ℕ) (err : DialError) (is : List Input) (s : Session)
    → NoConnect is
    → s.socket.closing ≡ false
    → any (λ d. d == c) s.socket.wired ≡ true
    → is_terminal s.socket err ≡ true
    → is_auth (final_status err) ≡ false
    → let s' = socket_run setup (from_client c (fails err) ∷ is) s in
      IsRefused s' × (s'.socket.dials ≡ s.socket.dials)
unfolding socket_run
refusal_stays_shown setup c err is s hs going heard final other =
    let (now, hd) = refuse-IsRefused setup c err s going heard final other in
    let (later, hd') =
      socket_run-Shows error setup is (socket_step setup (from_client c (fails err)) s) hs now in
    (later, hd' ∙ hd)
