-- ===== src/Socket/Fresh.antt =====
-- lib/ws-client.js: a connection that connect begins.
use hermitstash_sync.Prelude.{
  ℕ, true, false, Option, none, some, List, [], ◌∷◌, Text, ◌≡◌, refl, ◌∙◌, ap,
}
use hermitstash_sync.Socket.Client.{
  Net, Socket, Dialed, cancel_reconnect_timer, detached, dial, connect, close,
}
use hermitstash_sync.Socket.Single.{IsSingle, IsIdle, detached-IsIdle, timer-detached}
use hermitstash_sync.Socket.Retry.{CanDial, IsLive}

-- What stays of a wrapper when its live client is let go.
abbrev IsFramed : Socket → Socket → Type 0
IsFramed s s' = (s'.dials ≡ s.dials) × (s'.emitted ≡ s.emitted) × (s'.next ≡ s.next)

detached-IsFramed : (o : Option ℕ) (s : Socket) → IsFramed s (detached o s)
detached-IsFramed none s = (refl, refl, refl)
detached-IsFramed (some c) s = (refl, refl, refl)

pub emitted-close : (s : Socket) → (close s).emitted ≡ s.emitted
unfolding close cancel_reconnect_timer
emitted-close s = (detached-IsFramed s.current _).1

pub dials-close : (s : Socket) → ((close s).dials ≡ s.dials) × ((close s).next ≡ s.next)
unfolding close cancel_reconnect_timer
dials-close s = let kept = detached-IsFramed s.current _ in (kept.0, kept.2)

dial_succeeds :
    (net : Net) (s : Socket)
    → net.connect_error s.next ≡ none
    → IsIdle s
    → ((dial net s).closing ≡ s.closing)
      × ((dial net s).current ≡ some s.next)
      × ((dial net s).wired ≡ s.next ∷ [])
      × ((dial net s).timer ≡ s.timer)
      × ((dial net s).attempt ≡ s.attempt)
      × ((dial net s).emitted ≡ s.emitted)
      × ((dial net s).dials
          ≡ record { number = s.next; bundle = s.bundle_id; from = s.since } ∷ s.dials)
unfolding dial
dial_succeeds net s can (hw, _) = rw can (refl, refl, ap (s.next ∷◌) hw, refl, refl, refl, refl)

pub next_dial-cong :
    (bundle_id : Text) (since : ℕ) {n m : ℕ} {ds es : List Dialed}
    → n ≡ m
    → ds ≡ es
    → record { number = n; bundle = bundle_id; from = since } ∷ ds
      ≡ record { number = m; bundle = bundle_id; from = since } ∷ es
next_dial-cong bundle_id since h hs = rw (h, hs) refl

-- connect on any wrapper, whatever it is in the middle of, leaves one client live and alone, no redial
-- due, the ladder of delays at its foot, and one dial more, for the bundle and from the sequence
-- number it was given; it emits nothing.
pub connect_starts_over :
    (net : Net) (bundle_id : Text) (since : ℕ) (s : Socket)
    → CanDial net
    → net.reconnect ≡ true
    → IsSingle s
    → let s' = connect net bundle_id since s in
      IsLive net s' s.next
      × (s'.timer ≡ none)
      × (s'.attempt ≡ 0)
      × (s'.emitted ≡ s.emitted)
      × (s'.dials ≡ record { number = s.next; bundle = bundle_id; from = since } ∷ s.dials)
unfolding connect cancel_reconnect_timer
connect_starts_over net bundle_id since s can on (hw, _) =
    let quiet = cancel_reconnect_timer s in
    let idle = detached s.current quiet in
    let ready = record idle {
      bundle_id = bundle_id;
      since = since;
      closing = false;
      attempt = 0;
    } in
    let kept = detached-IsFramed s.current quiet in
    let facts =
      dial_succeeds net ready (can ready.next) (detached-IsIdle s.current quiet hw refl) in
    (
      (on, facts.0, facts.1 ∙ ap some kept.2, facts.2 ∙ ap (λ n. n ∷ []) kept.2),
      facts.3 ∙ timer-detached s.current quiet,
      facts.4,
      facts.5 ∙ kept.1,
      facts.6 ∙ next_dial-cong bundle_id since kept.2 kept.0,
    )
