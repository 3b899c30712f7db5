-- ===== src/Socket/Retry.antt =====
-- lib/ws-client.js: which failures are followed by another dial, and that it comes.
use hermitstash_sync.Prelude.{
  ℕ, Bool, true, false, none, some, List, [], ◌∷◌, ◌++◌, ◌+◌, Text, any, All, ◌==◌, ==_iff, ◌≡◌,
  ◌≢◌, ◌⊎◌, refl, arith, ◌∙◌, ap, subst, ◌≤◌, ◌<◌, ◌↔◌, same_refl,
}
use hermitstash_sync.Socket.Errors.{
  DialError, ws_error_status, bad_status, is_terminal_ws_error, is_retryable,
}
use hermitstash_sync.Socket.Client.{
  Net, Socket, Dialed, schedule_reconnect, dial, on_close, on_error, on_timer, closes, fails, Input,
  from_client, timer_fires, step, run, is_terminal,
}

-- A status ends the dialing exactly when it is no 5xx and neither 408 nor 429.
status_is_terminal :
    (err : DialError)
    → err.code ≡ bad_status
    → (is_terminal_ws_error false err ≡ true) ↔ (
        ((ws_error_status err < 500) ⊎ (600 ≤ ws_error_status err))
        × (ws_error_status err ≢ 408)
        × (ws_error_status err ≢ 429))
unfolding is_terminal_ws_error is_retryable
status_is_terminal err h = rw h (ground (arith, same_refl bad_status))

-- The live client, alone, on a wrapper that is open and redials.
abbrev pub IsLive : Net → Socket → ℕ → Type 0
IsLive net s c =
    (net.reconnect ≡ true) × (s.closing ≡ false) × (s.current ≡ some c) × (s.wired ≡ c ∷ [])

-- The framework fails at no configuration.
abbrev pub CanDial : Net → Type 0
CanDial net = (n : ℕ) → net.connect_error n ≡ none

-- One dial that fails for now: the client's error, its close, and the timer's end.
abbrev pub round : ℕ → DialError → List Input
round c err = from_client c (fails err) ∷ from_client c closes ∷ timer_fires ∷ []

on_error_spares :
    (err : DialError) (s : Socket)
    → s.closing ≡ false
    → is_terminal s err ≡ false
    → (((on_error err s).closing ≡ false) × ((on_error err s).wired ≡ s.wired))
      × ((on_error err s).since ≡ s.since)
      × ((on_error err s).bundle_id ≡ s.bundle_id)
      × ((on_error err s).dials ≡ s.dials)
      × ((on_error err s).next ≡ s.next)
unfolding on_error
on_error_spares err s going h = ground (arith, going, h)

-- One more dial than before, from the same place.
abbrev pub IsRedialed : Net → Socket → Socket → Type 0
IsRedialed net s s' =
    IsLive net s' s.next
    × (s'.dials ≡ record { number = s.next; bundle = s.bundle_id; from = s.since } ∷ s.dials)
    × (s'.since ≡ s.since)
    × (s'.bundle_id ≡ s.bundle_id)
    × (s'.next ≡ s.next + 1)

close_then_timer :
    (net : Net) (c : ℕ) (s : Socket)
    → CanDial net
    → net.reconnect ≡ true
    → s.closing ≡ false
    → s.wired ≡ c ∷ []
    → IsRedialed net s (run net (from_client c closes ∷ timer_fires ∷ []) s)
unfolding run step on_close schedule_reconnect on_timer dial
close_then_timer net c s can on going hw = ground (arith, can s.next, on, going, hw, ==_iff c c)

run_fails :
    (net : Net) (c : ℕ) (err : DialError) (is : List Input) (s : Socket)
    → any (λ d. d == c) s.wired ≡ true
    → run net (from_client c (fails err) ∷ is) s ≡ run net is (on_error err s)
unfolding run step
run_fails net c err is s heard = rw heard refl

heard_alone : (c : ℕ) (s : Socket) → s.wired ≡ c ∷ [] → any (λ d. d == c) s.wired ≡ true
heard_alone c s hw = rw hw (ground (arith, ==_iff c c))

terminal_never_later :
    (hc : Bool) (err : DialError)
    → is_terminal_ws_error false err ≡ false
    → is_terminal_ws_error hc err ≡ false
unfolding is_terminal_ws_error
terminal_never_later false err h = h
terminal_never_later true err h = ground arith

IsRedialed-after :
    (net : Net) (s t s' : Socket)
    → (t.since ≡ s.since) × (t.bundle_id ≡ s.bundle_id) × (t.dials ≡ s.dials) × (t.next ≡ s.next)
    → IsRedialed net t s'
    → IsRedialed net s s'
IsRedialed-after net s t s' same_as (live, hd, hs, hb, hn) = ground (arith, same_as, live, hd)

run-round :
    (net : Net) (c : ℕ) (err : DialError) (s : Socket)
    → CanDial net
    → IsLive net s c
    → is_terminal_ws_error false err ≡ false
    → IsRedialed net s (run net (round c err) s)
run-round net c err s can (on, going, hc, hw) h =
    let spared = on_error_spares err s going (terminal_never_later s.handshake_complete err h) in
    rw (run_fails net c err (from_client c closes ∷ timer_fires ∷ []) s (heard_alone c s hw)) (
      IsRedialed-after net s (on_error err s)
        (run net (from_client c closes ∷ timer_fires ∷ []) (on_error err s))
        (spared.1, spared.2, spared.3, spared.4)
        (close_then_timer net c (on_error err s) can on spared.0.0 (spared.0.1 ∙ hw)))

-- A run of dials that all fail for now; the clients are numbered in turn.
abbrev pub storm : ℕ → ℕ → List DialError → List Input
storm c n [] = []
storm c n (err ∷ errs) = round c err ++ storm n (n + 1) errs

-- The dials that follow the failures.
abbrev pub redials : Text → ℕ → ℕ → List DialError → List Dialed → List Dialed
redials bundle since n [] ds = ds
redials bundle since n (err ∷ errs) ds =
    redials bundle since (n + 1) errs (record { number = n; bundle = bundle; from = since } ∷ ds)

abbrev IsAnyLive : Net → Socket → Type 0
IsAnyLive net s = (c : ℕ) × IsLive net s c

run-append :
    (net : Net) (is js : List Input) (s : Socket) → run net (is ++ js) s ≡ run net js (run net is s)
unfolding run
run-append net [] js s = refl
run-append net (i ∷ is) js s = run-append net is js (step net i s)

-- What the next dial asks for.
abbrev Asks : Socket → ℕ → Text → ℕ → Type 0
Asks s n bundle since = (s.next ≡ n) × (s.bundle_id ≡ bundle) × (s.since ≡ since)

run-storm :
    (net : Net) (errs : List DialError) (c : ℕ) (s : Socket) (n : ℕ) (bundle : Text) (since : ℕ)
    (ds : List Dialed)
    → CanDial net
    → All (λ err. is_terminal_ws_error false err ≡ false) errs
    → IsLive net s c
    → Asks s n bundle since
    → s.dials ≡ ds
    → let s' = run net (storm c n errs) s in
      (s'.dials ≡ redials bundle since n errs ds) × IsAnyLive net s'
unfolding run
run-storm net [] c s n bundle since ds can hs live asks hd = (hd, (c, live))
run-storm net (err ∷ errs) c s n bundle since ds can (h, hs) live (hn, hb, hf) hd =
    let s' = run net (round c err) s in
    let (live', ed, ef, eb, en) = run-round net c err s can live h in
    rw (run-append net (round c err) (storm n (n + 1) errs) s) (
      run-storm net errs n s' (n + 1) bundle since
        (record { number = n; bundle = bundle; from = since } ∷ ds) can hs
        (subst (IsLive net s') hn live') (en ∙ ap (◌+ 1) hn, eb ∙ hb, ef ∙ hf)
        (ground (arith, ed, hn, hb, hf, hd)))

-- However often in a row dialing fails for now, by errors that do not rule out another dial, every
-- failure is followed by one more dial, each from the sequence number that the engine last handed
-- over, and a client is live in the end. The framework is taken to fail at no configuration.
pub run-storm-redials :
    (net : Net) (errs : List DialError) (c : ℕ) (s : Socket)
    → CanDial net
    → All (λ err. is_terminal_ws_error false err ≡ false) errs
    → IsLive net s c
    → let s' = run net (storm c s.next errs) s in
      (s'.dials ≡ redials s.bundle_id s.since s.next errs s.dials) × IsAnyLive net s'
run-storm-redials net errs c s can hs live =
    run-storm net errs c s s.next s.bundle_id s.since s.dials can hs live (refl, refl, refl) refl
