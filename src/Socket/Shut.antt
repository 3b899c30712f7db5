-- ===== src/Socket/Shut.antt =====
-- lib/ws-client.js: a closed wrapper is silent until the next connect.
use hermitstash_sync.Prelude.{
  ℕ, Bool, true, false, not, ◌||◌, Option, none, some, List, [], ◌∷◌, ◌++◌, if◌then◌else◌, same,
  keep_if, any, All, ◌==◌, ◌≡◌, inl, inr, refl, arith, Bool-cases, ◌∙◌,
}
use hermitstash_sync.Socket.Errors.{DialError, ws_error_status, is_ssrf_error, bad_status}
use hermitstash_sync.Socket.Client.{
  Net, Socket, Emitted, close_event, upgrade_rejected, auth_error, cancel_reconnect_timer, detached,
  schedule_reconnect, close, on_open, on_message, on_close, on_error, on_timer, handle, ClientEvent,
  opens, closes, receives, fails, Input, connects, shuts, moves_since, from_client, timer_fires,
  step, run, is_terminal, is_auth,
}

abbrev pub is_close : Emitted → Bool
is_close close_event = true
is_close _ = false

-- What the listeners were told, but for the closes.
abbrev pub told : Socket → List Emitted
told s = keep_if (λ ev. not (is_close ev)) s.emitted

abbrev pub is_connect : Input → Bool
is_connect (connects bundle_id since) = true
is_connect _ = false

abbrev pub NoConnect : List Input → Type 0
NoConnect is = All (λ i. is_connect i ≡ false) is

-- Closed, having dialed and told nothing more.
abbrev pub IsShut : Socket → Socket → Type 0
IsShut s s' = (s'.closing ≡ true) × (s'.dials ≡ s.dials) × (told s' ≡ told s)

handle-IsShut :
    (net : Net) (c : ℕ) (ev : ClientEvent) (s : Socket)
    → s.closing ≡ true
    → IsShut s (handle net c ev s)
unfolding on_open on_message on_close on_error schedule_reconnect
handle-IsShut net c opens s shut = ground (arith, shut)
handle-IsShut net c closes s shut = ground (arith, shut)
handle-IsShut net c (receives body is_binary) s shut = ground (arith, shut)
handle-IsShut net c (fails err) s shut = ground (arith, shut)

detached-IsShut : (o : Option ℕ) (s : Socket) → s.closing ≡ true → IsShut s (detached o s)
detached-IsShut none s shut = (shut, refl, refl)
detached-IsShut (some c) s shut = (shut, refl, refl)

pub step-IsShut :
    (net : Net) (i : Input) (s : Socket)
    → is_connect i ≡ false
    → s.closing ≡ true
    → IsShut s (step net i s)
unfolding step close cancel_reconnect_timer on_timer
step-IsShut net (connects bundle_id since) s h shut = ground (arith, h)
step-IsShut net shuts s h shut = detached-IsShut s.current _ refl
step-IsShut net (moves_since seq) s h shut = (shut, refl, refl)
step-IsShut net (from_client c ev) s h shut = elim (Bool-cases (any (λ d. d == c) s.wired)) [
  | inl heard ↦ rw (heard, step) (handle-IsShut net c ev s shut)
  | inr unheard ↦ rw (unheard, step) (shut, refl, refl)
]
step-IsShut net timer_fires s h shut = ground (arith, shut)

-- A closed wrapper, whether by close or by a failure that rules out another dial, dials nothing and
-- tells its listeners nothing but closes, whatever its clients and timers still do, until connect is
-- called.
pub run-IsShut :
    (net : Net) (is : List Input) (s : Socket)
    → NoConnect is
    → s.closing ≡ true
    → IsShut s (run net is s)
unfolding run
run-IsShut net [] s hs shut = (shut, refl, refl)
run-IsShut net (i ∷ is) s (h, hs) shut =
    let now = step-IsShut net i s h shut in
    let later = run-IsShut net is (step net i s) hs now.0 in
    (later.0, later.1 ∙ now.1, later.2 ∙ now.2)

-- The status that a failure for good is told with.
abbrev pub final_status : DialError → ℕ
final_status err =
    if is_ssrf_error err || not (same err.code bad_status) then 0 else ws_error_status err

-- The events of a refused handshake, the newest first.
abbrev pub verdict : DialError → List Emitted
verdict err =
    if is_auth (final_status err)
    then auth_error (final_status err) ∷ upgrade_rejected (final_status err) ∷ []
    else upgrade_rejected (final_status err) ∷ []

pub on_error_refuses :
    (err : DialError) (s : Socket)
    → s.closing ≡ false
    → is_terminal s err ≡ true
    → ((on_error err s).closing ≡ true)
      × ((on_error err s).dials ≡ s.dials)
      × ((on_error err s).emitted ≡ verdict err ++ s.emitted)
      × (told (on_error err s) ≡ verdict err ++ told s)
unfolding on_error
on_error_refuses err s going h = ground (arith, going, h)

-- A handshake that the live client fails for good is told once: with the status the server gave, and
-- with auth_error after it for 401 and 403; with status 0 for a refused address and for every failure
-- that carries no status. Nothing is dialed or told after it, closes aside, until connect is called.
pub refused_handshake_is_final :
    (net : Net) (c : ℕ) (err : DialError) (is : List Input) (s : Socket)
    → NoConnect is
    → s.closing ≡ false
    → any (λ d. d == c) s.wired ≡ true
    → is_terminal s err ≡ true
    → let s' = run net (from_client c (fails err) ∷ is) s in
      (s'.closing ≡ true) × (s'.dials ≡ s.dials) × (told s' ≡ verdict err ++ told s)
unfolding run step
refused_handshake_is_final net c err is s hs going heard h =
    rw (heard, run, step)
      (let now = on_error_refuses err s going h in
        let later = run-IsShut net is (on_error err s) hs now.0 in
        (later.0, later.1 ∙ now.1, later.2 ∙ now.3))
