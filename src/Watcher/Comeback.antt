-- ===== src/Watcher/Comeback.antt =====
-- lib/watcher.js: a lost handle is replaced.
use hermitstash_sync.Prelude.{
  ℕ, zero, suc, ◌+◌, Bool, true, false, some, List, [], ◌∷◌, ◌++◌, Text, ==_iff, ◌≡◌, ◌⊎◌, inl, inr,
  refl, arith, ◌∙◌, sym, subst, Bool-cases, ◌<◌,
}
use hermitstash_sync.Watcher.Patterns.{dir_prefix_ignores}
use hermitstash_sync.Watcher.Handle.{
  Backend, Watcher, Notice, rescan_notice, fatal_notice, start_watcher, schedule_recovery, recreate,
  on_ready, on_recovery_timer, on_stable_timer, confirm_stable, is_due, update_patterns, same_texts,
}
use hermitstash_sync.Watcher.Steps.{
  Happening, becomes_ready, recovery_fires, stable_fires, watch_step, watch_run,
}
use hermitstash_sync.Watcher.Revive.{IsDown, IsDegraded}

-- k timers, each with an attempt.
abbrev pub fires : ℕ → List Happening
fires zero = []
fires (suc k) = recovery_fires ∷ fires k

-- The framework throws at the next k calls with these patterns.
abbrev pub Throws : Backend → ℕ → ℕ → List Text → Type 0
Throws be at k ps = (j : ℕ) → j < k → be.create_throws (at + j) ps ≡ true

-- Down at the n-th attempt and the m-th call, with these patterns to forward and these notices given.
abbrev pub IsDownAt : Backend → Watcher → ℕ → ℕ → List Text → List Notice → Type 0
IsDownAt be w n m ps ns =
    IsDown w n
    × (w.running ≡ [])
    × (w.next ≡ m)
    × (dir_prefix_ignores be.caps w.ignore_patterns ≡ ps)
    × (w.notices ≡ ns)

at_call :
    (be : Backend) (w : Watcher) (n m : ℕ) (ps : List Text) (ns : List Notice) (b : Bool)
    → IsDownAt be w n m ps ns
    → be.create_throws m ps ≡ b
    → be.create_throws w.next (dir_prefix_ignores be.caps w.ignore_patterns) ≡ b
at_call be w n m ps ns b down h = rw (down.2, down.3) h

recovery_fires_refused :
    (be : Backend) (w : Watcher) (n m : ℕ) (ps : List Text) (ns : List Notice)
    → IsDownAt be w n m ps ns
    → n + 1 < 4
    → be.create_throws m ps ≡ true
    → IsDownAt be (on_recovery_timer be w) (n + 1) (m + 1) ps ns
unfolding on_recovery_timer recreate schedule_recovery
recovery_fires_refused be w n m ps ns down lt h =
    ground (arith, down, lt, at_call be w n m ps ns true down h)

-- The handle m is held, and its baseline is waited for.
abbrev IsHeld : Watcher → ℕ → List Text → List Notice → Type 0
IsHeld w m ps ns =
    (w.stopped ≡ false)
    × (w.current_handle ≡ some m)
    × (w.running ≡ m ∷ [])
    × (w.dir_ignores ≡ ps)
    × (is_due m w.rescan_due ≡ true)
    × (is_due m w.stable_due ≡ true)
    × (w.notices ≡ ns)

recovery_fires-IsHeld :
    (be : Backend) (w : Watcher) (n m : ℕ) (ps : List Text) (ns : List Notice)
    → IsDownAt be w n m ps ns
    → be.create_throws m ps ≡ false
    → IsHeld (on_recovery_timer be w) m ps ns
unfolding on_recovery_timer recreate schedule_recovery
recovery_fires-IsHeld be w n m ps ns down h =
    ground (arith, down, at_call be w n m ps ns false down h, ==_iff m m)

-- The handle m is held and confirmed, and the listeners are told to scan the folder once.
abbrev pub IsBack : Watcher → ℕ → List Text → List Notice → Type 0
IsBack w m ps ns =
    (w.current_handle ≡ some m)
    × (w.running ≡ m ∷ [])
    × (w.dir_ignores ≡ ps)
    × (w.recovery_attempts ≡ 0)
    × (w.notices ≡ rescan_notice ∷ ns)

-- The baseline is there, and the stability window runs.
abbrev IsSettled : Watcher → ℕ → List Text → List Notice → Type 0
IsSettled w m ps ns =
    (w.stopped ≡ false)
    × (w.current_handle ≡ some m)
    × (w.running ≡ m ∷ [])
    × (w.dir_ignores ≡ ps)
    × (w.stable_timer ≡ some m)
    × (w.notices ≡ rescan_notice ∷ ns)

on_ready-IsSettled :
    (w : Watcher) (m : ℕ) (ps : List Text) (ns : List Notice)
    → IsHeld w m ps ns
    → IsSettled (on_ready m w) m ps ns
unfolding on_ready
on_ready-IsSettled w m ps ns held = ground (arith, held, ==_iff m m)

confirm-IsBack :
    (w : Watcher) (m : ℕ) (ps : List Text) (ns : List Notice)
    → IsSettled w m ps ns
    → IsBack (confirm_stable (some m) w) m ps ns
confirm-IsBack w m ps ns settled = ground (arith, settled, ==_iff m m)

recovery_fires-IsBack :
    (be : Backend) (w : Watcher) (n m : ℕ) (ps : List Text) (ns : List Notice)
    → IsDownAt be w n m ps ns
    → be.create_throws m ps ≡ false
    → IsBack (watch_run be (recovery_fires ∷ becomes_ready m ∷ stable_fires ∷ []) w) m ps ns
unfolding watch_run watch_step on_stable_timer
recovery_fires-IsBack be w n m ps ns down h =
    let w' = on_ready m (on_recovery_timer be w) in
    let settled =
      on_ready-IsSettled (on_recovery_timer be w) m ps ns
        (recovery_fires-IsHeld be w n m ps ns down h) in
    subst (λ o. IsBack (confirm_stable o w') m ps ns) (sym settled.4)
      (confirm-IsBack w' m ps ns settled)

revives_at :
    (be : Backend) (k : ℕ) (w : Watcher) (n m last : ℕ) (ps : List Text) (ns : List Notice)
    → IsDownAt be w n m ps ns
    → n + k < 4
    → Throws be m k ps
    → last ≡ m + k
    → be.create_throws last ps ≡ false
    → IsBack
        (watch_run be (fires k ++ recovery_fires ∷ becomes_ready last ∷ stable_fires ∷ []) w)
        last
        ps
        ns
unfolding watch_run watch_step
revives_at be zero w n m last ps ns down lt throws eq h =
    recovery_fires-IsBack be w n last ps ns
      (subst (λ i. IsDownAt be w n i ps ns) (sym (eq ∙ omega arith)) down) h
revives_at be (suc k) w n m last ps ns down lt throws eq h =
    revives_at be k (on_recovery_timer be w) (n + 1) (m + 1) last ps ns
      (recovery_fires_refused be w n m ps ns down (omega (arith, lt))
        (subst (λ i. be.create_throws i ps ≡ true) (omega arith) (throws 0 (omega arith))))
      (omega (arith, lt))
      (λ j less.
        subst (λ i. be.create_throws i ps ≡ true) (omega arith)
          (throws (suc j) (omega (arith, less))))
      (eq ∙ omega arith) h

-- A wrapper whose handle is lost, with n attempts counted, comes back when the framework throws at k
-- more calls and not at the next, n + k below four: that handle is the only one that runs, with the
-- present ignore patterns; the rescan is told once its baseline is there, and nothing else; and when
-- the stability window has ended the attempts are counted from 0 again.
pub recovery_revives :
    (be : Backend) (k : ℕ) (w : Watcher) (n m : ℕ) (ps : List Text) (ns : List Notice)
    → IsDownAt be w n m ps ns
    → n + k < 4
    → Throws be m k ps
    → be.create_throws (m + k) ps ≡ false
    → IsBack
        (watch_run be (fires k ++ recovery_fires ∷ becomes_ready (m + k) ∷ stable_fires ∷ []) w)
        (m + k)
        ps
        ns
recovery_revives be k w n m ps ns down lt throws h =
    revives_at be k w n m (m + k) ps ns down lt throws refl h

-- New ignore patterns that change what is forwarded start a degraded wrapper again: when the framework
-- takes them, with a new handle, whose baseline a rescan waits for, and no attempt counted; when it
-- throws, with a fatal notice and the first of four attempts due after half a second.
update_patterns_rearms :
    (be : Backend) (ignore include : List Text) (w : Watcher)
    → IsDegraded w
    → same_texts (dir_prefix_ignores be.caps ignore) w.dir_ignores ≡ false
    → let w' = update_patterns be ignore include w in
      ((be.create_throws w.next (dir_prefix_ignores be.caps ignore) ≡ false)
        × (w'.current_handle ≡ some w.next)
        × (w'.recovery_attempts ≡ 0)
        × (w'.rescan_due ≡ w.next ∷ w.rescan_due)
        × (w'.notices ≡ w.notices))
      ⊎ ((be.create_throws w.next (dir_prefix_ignores be.caps ignore) ≡ true)
          × IsDown w' 0
          × (w'.recovery_timer ≡ some 500)
          × (w'.notices ≡ fatal_notice ∷ w.notices))
unfolding update_patterns start_watcher schedule_recovery
update_patterns_rearms be ignore include w off h =
    elim (Bool-cases (be.create_throws w.next (dir_prefix_ignores be.caps ignore))) [
      | inl threw ↦ inr (ground (arith, off, h, threw))
      | inr took ↦ inl (ground (arith, off, h, took))
    ]
