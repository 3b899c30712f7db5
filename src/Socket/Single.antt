-- ===== src/Socket/Single.antt =====
-- lib/ws-client.js: one connection at a time.
use hermitstash_sync.Prelude.{
  ℕ, Bool, true, not, Option, none, some, List, [], ◌∷◌, Text, keep_if, any, ◌==◌, is_some, ◌≡◌,
  ◌⊎◌, inl, inr, refl, arith, Bool-cases, ◌∙◌, sym, ap, listed, drop_last,
}
use hermitstash_sync.Socket.Errors.{DialError}
use hermitstash_sync.Socket.Client.{
  Net, Socket, fresh, cancel_reconnect_timer, detached, schedule_reconnect, dialed, dialing, dial,
  connect, close, on_open, on_message, on_close, on_error, on_timer, handle, ClientEvent, opens,
  closes, receives, fails, Input, connects, shuts, moves_since, from_client, timer_fires, step, run,
  parsed,
}

-- The clients that can call the wrapper are the live one, and no redial is due while there is one.
abbrev pub IsSingle : Socket → Type 0
IsSingle s = (s.wired ≡ listed s.current) × ((s.timer ≡ none) ⊎ (s.current ≡ none))

-- Nothing is live.
abbrev pub IsIdle : Socket → Type 0
IsIdle s = (s.wired ≡ []) × (s.current ≡ none)

-- The connection is as it was.
abbrev IsSame : Socket → Socket → Type 0
IsSame s s' = (s'.wired ≡ s.wired) × (s'.current ≡ s.current) × (s'.timer ≡ s.timer)

IsSame-IsSingle : (s s' : Socket) → IsSame s s' → IsSingle s → IsSingle s'
IsSame-IsSingle s s' same_as single = ground (arith, same_as, single)

schedule_reconnect-IsSingle :
    (net : Net) (s : Socket) → IsIdle s → IsSingle (schedule_reconnect net s)
unfolding schedule_reconnect
schedule_reconnect-IsSingle net s idle = ground (arith, idle)

pub detached-IsIdle :
    (o : Option ℕ) (s : Socket) → s.wired ≡ listed o → s.current ≡ o → IsIdle (detached o s)
detached-IsIdle none s hw hc = (hw, hc)
detached-IsIdle (some c) s hw hc = (ap (keep_if (λ d. not (d == c))) hw ∙ drop_last c, refl)

pub timer-detached : (o : Option ℕ) (s : Socket) → (detached o s).timer ≡ s.timer
timer-detached none s = refl
timer-detached (some c) s = refl

dialed-IsSingle :
    (net : Net) (c : ℕ) (thrown : Option DialError) (s : Socket)
    → IsIdle s
    → s.timer ≡ none
    → IsSingle (dialed net c thrown s)
unfolding schedule_reconnect
dialed-IsSingle net c none s idle h = ground (arith, idle, h)
dialed-IsSingle net c (some err) s idle h = ground (arith, idle, h)

dial-IsSingle : (net : Net) (s : Socket) → IsIdle s → s.timer ≡ none → IsSingle (dial net s)
unfolding dial
dial-IsSingle net s idle h =
    dialed-IsSingle net s.next (net.connect_error s.next) (dialing s) idle h

on_open-IsSame : (net : Net) (c : ℕ) (s : Socket) → IsSame s (on_open net c s)
unfolding on_open
on_open-IsSame net c s = ground arith

parsed-IsSame : (o : Option Text) (s : Socket) → IsSame s (parsed o s)
parsed-IsSame none s = (refl, refl, refl)
parsed-IsSame (some msg) s = (refl, refl, refl)

on_message-IsSame :
    (net : Net) (body : Text) (is_binary : Bool) (s : Socket)
    → IsSame s (on_message net body is_binary s)
unfolding on_message
on_message-IsSame net body is_binary s = ground (arith, parsed-IsSame (net.parse_json body) s)

on_error-IsSame : (err : DialError) (s : Socket) → IsSame s (on_error err s)
unfolding on_error
on_error-IsSame err s = ground arith

connect-IsSingle :
    (net : Net) (bundle_id : Text) (since : ℕ) (s : Socket)
    → IsSingle s
    → IsSingle (connect net bundle_id since s)
unfolding connect cancel_reconnect_timer
connect-IsSingle net bundle_id since s (hw, h) =
    dial-IsSingle net _ (detached-IsIdle s.current (cancel_reconnect_timer s) hw refl)
      (timer-detached s.current (cancel_reconnect_timer s))

pub close-IsSingle : (s : Socket) → IsSingle s → IsSingle (close s)
unfolding close cancel_reconnect_timer
close-IsSingle s (hw, h) =
    let idle =
      detached-IsIdle s.current (cancel_reconnect_timer (record s { closing = true })) hw refl in
    (idle.0 ∙ ap listed (sym idle.1), inr idle.1)

on_timer-IsSingle :
    (net : Net) (s : Socket) → is_some s.timer ≡ true → IsSingle s → IsSingle (on_timer net s)
unfolding on_timer
on_timer-IsSingle net s pending (hw, inl h) = ground (arith, pending, h)
on_timer-IsSingle net s pending (hw, inr h) = elim (Bool-cases s.closing) [
  | inl shut ↦ rw (shut, on_timer) (hw, inl refl)
  | inr going ↦ rw (going, on_timer) (dial-IsSingle net _ (hw ∙ ap listed h, h) refl)
]

unwire_listed :
    (o : Option ℕ) (c : ℕ)
    → any (λ d. d == c) (listed o) ≡ true
    → keep_if (λ d. not (d == c)) (listed o) ≡ []
unwire_listed none c heard = refl
unwire_listed (some d) c heard = ground (arith, heard)

on_close-IsSingle :
    (net : Net) (c : ℕ) (s : Socket)
    → any (λ d. d == c) s.wired ≡ true
    → IsSingle s
    → IsSingle (on_close net c s)
unfolding on_close
on_close-IsSingle net c s heard (hw, h) =
    schedule_reconnect-IsSingle net _
      (ap (keep_if (λ d. not (d == c))) hw ∙ unwire_listed s.current c (rw (sym hw) heard), refl)

handle-IsSingle :
    (net : Net) (c : ℕ) (ev : ClientEvent) (s : Socket)
    → any (λ d. d == c) s.wired ≡ true
    → IsSingle s
    → IsSingle (handle net c ev s)
handle-IsSingle net c opens s heard v =
    IsSame-IsSingle s (on_open net c s) (on_open-IsSame net c s) v
handle-IsSingle net c closes s heard v = on_close-IsSingle net c s heard v
handle-IsSingle net c (receives body is_binary) s heard v =
    IsSame-IsSingle s (on_message net body is_binary s) (on_message-IsSame net body is_binary s) v
handle-IsSingle net c (fails err) s heard v =
    IsSame-IsSingle s (on_error err s) (on_error-IsSame err s) v

pub step-IsSingle : (net : Net) (i : Input) (s : Socket) → IsSingle s → IsSingle (step net i s)
unfolding step
step-IsSingle net (connects bundle_id since) s v = connect-IsSingle net bundle_id since s v
step-IsSingle net shuts s v = close-IsSingle s v
step-IsSingle net (moves_since seq) s v = v
step-IsSingle net (from_client c ev) s v = elim (Bool-cases (any (λ d. d == c) s.wired)) [
  | inl heard ↦ rw (heard, step) (handle-IsSingle net c ev s heard v)
  | inr unheard ↦ rw (unheard, step) v
]
step-IsSingle net timer_fires s v = elim (Bool-cases (is_some s.timer)) [
  | inl pending ↦ rw (pending, step) (on_timer-IsSingle net s pending v)
  | inr no_timer ↦ rw (no_timer, step) v
]

run-IsSingle : (net : Net) (is : List Input) (s : Socket) → IsSingle s → IsSingle (run net is s)
unfolding run
run-IsSingle net [] s v = v
run-IsSingle net (i ∷ is) s v = run-IsSingle net is _ (step-IsSingle net i s v)

-- After any history of a new wrapper, whatever calls, events, errors and timers it had and in whatever
-- order, the clients that can still call it are the live one alone, and while there is one no redial
-- is due.
pub run-fresh-IsSingle : (net : Net) (is : List Input) → IsSingle (run net is fresh)
run-fresh-IsSingle net is = run-IsSingle net is fresh (refl, inl refl)
