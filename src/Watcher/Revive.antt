-- ===== src/Watcher/Revive.antt =====
-- lib/watcher.js: failed attempts end in the degraded state.
use hermitstash_sync.Prelude.{
  ℕ, ◌+◌, true, false, Option, none, some, List, [], ◌∷◌, ◌++◌, length, is_some, ◌≡◌, ◌⊎◌, inl, inr,
  refl, arith, ap, ◌≤◌, ◌<◌,
}
use hermitstash_sync.Watcher.Patterns.{dir_prefix_ignores}
use hermitstash_sync.Watcher.Handle.{
  Backend, WatchError, Watcher, Notice, degraded_notice, drop_handle, schedule_recovery,
  on_watcher_error, is_fatal_watch_error, recreate, on_ready, on_recovery_timer, on_stable_timer,
  confirm_stable,
}
use hermitstash_sync.Watcher.Steps.{
  Happening, reports_error, becomes_ready, recovery_fires, stable_fires, watch_step, watch_run,
}

-- The handle is lost, and the next attempt is due.
abbrev pub IsDown : Watcher → ℕ → Type 0
IsDown w n =
    (w.stopped ≡ false)
    × (w.current_handle ≡ none)
    × (w.stable_timer ≡ none)
    × (w.recovery_attempts ≡ n)
    × (w.recovering ≡ true)
    × (is_some w.recovery_timer ≡ true)
    × (n < 4)

abbrev pub newest : List Notice → Option Notice
newest [] = none
newest (n ∷ ns) = some n

-- The wrapper has given up, and has said so.
abbrev pub IsDegraded : Watcher → Type 0
IsDegraded w =
    (w.stopped ≡ false)
    × (w.current_handle ≡ none)
    × (w.stable_timer ≡ none)
    × (w.recovery_attempts ≡ 4)
    × (w.recovering ≡ false)
    × (w.recovery_timer ≡ none)
    × (newest w.notices ≡ some degraded_notice)

-- An attempt was made; a handle may be held.
abbrev IsTried : Watcher → ℕ → Type 0
IsTried w n =
    (w.stopped ≡ false)
    × (w.recovery_attempts ≡ n)
    × (n ≤ 4)
    × (w.recovering ≡ is_some w.recovery_timer)
    × ((n < 4) ⊎ (w.recovery_timer ≡ none))

on_recovery_timer-IsTried :
    (be : Backend) (w : Watcher) (n : ℕ) → IsDown w n → IsTried (on_recovery_timer be w) (n + 1)
unfolding on_recovery_timer recreate schedule_recovery
on_recovery_timer-IsTried be w n down = ground (arith, down)

on_ready-IsTried : (h : ℕ) (w : Watcher) (n : ℕ) → IsTried w n → IsTried (on_ready h w) n
unfolding on_ready
on_ready-IsTried h w n tried = ground (arith, tried)

drop_handle_rest :
    (o : Option ℕ) (w : Watcher)
    → w.current_handle ≡ o
    → let w' = drop_handle o w in
      (w'.current_handle ≡ none)
      × (w'.stopped ≡ w.stopped)
      × (w'.recovery_attempts ≡ w.recovery_attempts)
      × (w'.recovering ≡ w.recovering)
      × (w'.recovery_timer ≡ w.recovery_timer)
drop_handle_rest none w h = (h, refl, refl, refl, refl)
drop_handle_rest (some c) w h = (refl, refl, refl, refl, refl)

on_watcher_error_lem :
    (err : WatchError) (w : Watcher) (n : ℕ)
    → is_fatal_watch_error err ≡ true
    → IsTried w n
    → let w' = on_watcher_error err w in IsDown w' n ⊎ (IsDegraded w' × (n ≡ 4))
unfolding on_watcher_error schedule_recovery
on_watcher_error_lem err w n fatal tried =
    ground (arith, fatal, tried, drop_handle_rest w.current_handle w refl)

-- One attempt that comes to nothing. Either the framework throws when the timer calls it, and nothing
-- else happens; or the handle dies: the timer fires, a baseline may settle, a fatal error ends the
-- handle, and the stability window would end.
pub data Attempt : Type 0 where
  throws : Attempt
  dies : ℕ → WatchError → Attempt

abbrev pub happenings : Attempt → List Happening
happenings throws = recovery_fires ∷ []
happenings (dies h err) = recovery_fires ∷ becomes_ready h ∷ reports_error err ∷ stable_fires ∷ []

abbrev pub attempts : List Attempt → List Happening
attempts [] = []
attempts (a ∷ tries) = happenings a ++ attempts tries

-- The framework throws at the next call with the patterns that are due, or the error is fatal.
abbrev pub ComesToNothing : Backend → Watcher → Attempt → Type 0
ComesToNothing be w throws =
    be.create_throws w.next (dir_prefix_ignores be.caps w.ignore_patterns) ≡ true
ComesToNothing be w (dies h err) = is_fatal_watch_error err ≡ true

abbrev pub AllFail : Backend → Watcher → List Attempt → Type 0
AllFail be w [] = Unit
AllFail be w (a ∷ tries) = ComesToNothing be w a × AllFail be (watch_run be (happenings a) w) tries

on_stable_timer-idle : (w : Watcher) → w.stable_timer ≡ none → on_stable_timer w ≡ w
unfolding on_stable_timer
on_stable_timer-idle w h = ap (λ o. confirm_stable o w) h

watch_run_nothing : (be : Backend) (w : Watcher) → watch_run be [] w ≡ w
unfolding watch_run
watch_run_nothing be w = refl

watch_run-append :
    (be : Backend) (es fs : List Happening) (w : Watcher)
    → watch_run be (es ++ fs) w ≡ watch_run be fs (watch_run be es w)
unfolding watch_run
watch_run-append be [] fs w = refl
watch_run-append be (e ∷ es) fs w = watch_run-append be es fs (watch_step be e w)

-- The state right after the error of a failed attempt.
abbrev failed_once : Backend → ℕ → WatchError → Watcher → Watcher
failed_once be h err w = on_watcher_error err (on_ready h (on_recovery_timer be w))

failed_once_lem :
    (be : Backend) (h : ℕ) (err : WatchError) (w : Watcher) (n : ℕ)
    → is_fatal_watch_error err ≡ true
    → IsDown w n
    → let w' = failed_once be h err w in IsDown w' (n + 1) ⊎ (IsDegraded w' × (n + 1 ≡ 4))
failed_once_lem be h err w n fatal down =
    on_watcher_error_lem err (on_ready h (on_recovery_timer be w)) (n + 1) fatal
      (on_ready-IsTried h (on_recovery_timer be w) (n + 1) (on_recovery_timer-IsTried be w n down))

throws_lem :
    (be : Backend) (w : Watcher) (n : ℕ)
    → be.create_throws w.next (dir_prefix_ignores be.caps w.ignore_patterns) ≡ true
    → IsDown w n
    → let w' = on_recovery_timer be w in IsDown w' (n + 1) ⊎ (IsDegraded w' × (n + 1 ≡ 4))
unfolding on_recovery_timer recreate schedule_recovery
throws_lem be w n threw down = ground (arith, threw, down)

attempt_lem :
    (be : Backend) (a : Attempt) (w : Watcher) (n : ℕ)
    → ComesToNothing be w a
    → IsDown w n
    → let w' = watch_run be (happenings a) w in IsDown w' (n + 1) ⊎ (IsDegraded w' × (n + 1 ≡ 4))
unfolding watch_run watch_step
attempt_lem be throws w n threw down = throws_lem be w n threw down
attempt_lem be (dies h err) w n fatal down = elim (failed_once_lem be h err w n fatal down) [
  | inl again ↦ rw (on_stable_timer-idle (failed_once be h err w) again.2) (inl again)
  | inr (off, four) ↦ rw (on_stable_timer-idle (failed_once be h err w) off.2) (inr (off, four))
]

-- From a lost handle with n attempts counted, n below four, as many failed attempts as are left of four
-- end in the degraded state: no handle, no timer, and the notice given. An attempt fails when the
-- framework throws at its call, with nothing else happening before the next; or when its handle dies
-- with a fatal error before the stability window ends, be its baseline reached or not. Both kinds can
-- follow each other in any order.
pub crashes_degrade :
    (be : Backend) (tries : List Attempt) (w : Watcher) (n : ℕ)
    → AllFail be w tries
    → IsDown w n
    → n + length tries ≡ 4
    → IsDegraded (watch_run be (attempts tries) w)
crashes_degrade be [] w n fail down left = ground (arith, down, left)
crashes_degrade be (a ∷ []) w n (fail, rest) down left =
    rw (watch_run-append be (happenings a) [] w) (elim (attempt_lem be a w n fail down) [
      | inl again ↦ ground (arith, again, left)
      | inr (off, four) ↦ rw (watch_run_nothing be (watch_run be (happenings a) w)) off
    ])
crashes_degrade be (a ∷ next ∷ tries) w n (fail, rest) down left =
    rw (watch_run-append be (happenings a) (attempts (next ∷ tries)) w)
      (elim (attempt_lem be a w n fail down) [
        | inl again ↦
            crashes_degrade be (next ∷ tries) (watch_run be (happenings a) w) (n + 1) rest again
              (omega (arith, left))
        | inr (off, four) ↦ ground (arith, four, left)
      ])
