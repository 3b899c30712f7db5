-- ===== src/Watcher/Sound.antt =====
-- lib/watcher.js: one handle and one recovery at a time.
use hermitstash_sync.Prelude.{
  ℕ, Bool, true, false, not, ◌||◌, Option, none, some, List, [], ◌∷◌, Text, ◌==◌, is_some, keep_if,
  listed, drop_last, ◌≡◌, ◌⊎◌, inl, inr, refl, arith, Bool-cases, ap, ◌∙◌, ◌≤◌, ◌<◌,
}
use hermitstash_sync.Watcher.Handle.{
  Backend, WatchError, Watcher, RawEvent, new_watcher, notify, fatal_notice, same_texts, awaiting,
  drop_handle, start_watcher, schedule_recovery, on_watcher_error, recreate, on_ready,
  on_recovery_timer, confirm_stable, on_stable_timer, stop_watcher, after_start, bounced,
  with_patterns, update_patterns,
}
use hermitstash_sync.Watcher.Steps.{
  on_change, on_delete, Happening, starts, stops, reloads, reports_change, reports_delete,
  reports_error, becomes_ready, fails_ready, recovery_fires, stable_fires, watch_step, watch_run,
}

-- A stopped wrapper holds no handle and waits for no timer.
abbrev pub IsQuiet : Watcher → Type 0
IsQuiet w = (w.current_handle ≡ none) × (w.recovery_timer ≡ none) × (w.stable_timer ≡ none)

-- The framework runs the handle that is held and no other, a recovery is under way exactly while its
-- timer is armed, a stopped wrapper is quiet, and no fifth attempt is due.
abbrev pub IsSound : Watcher → Type 0
IsSound w =
    (w.running ≡ listed w.current_handle)
    × (w.recovering ≡ is_some w.recovery_timer)
    × ((w.stopped ≡ false) ⊎ IsQuiet w)
    × (w.recovery_attempts ≤ 4)
    × ((w.recovery_timer ≡ none) ⊎ (w.recovery_attempts < 4))

schedule_recovery-IsSound : (w : Watcher) → IsSound w → IsSound (schedule_recovery w)
unfolding schedule_recovery
schedule_recovery-IsSound w sound = ground (arith, sound)

running-drop_handle :
    (o : Option ℕ) (w : Watcher)
    → w.running ≡ listed o
    → w.current_handle ≡ o
    → ((drop_handle o w).running ≡ []) × ((drop_handle o w).current_handle ≡ none)
running-drop_handle none w hr hh = (hr, hh)
running-drop_handle (some h) w hr hh = (ap (keep_if (λ d. not (d == h))) hr ∙ drop_last h, refl)

-- All but the handle.
abbrev IsSameButHandle : Watcher → Watcher → Type 0
IsSameButHandle w w' =
    (w'.recovering ≡ w.recovering)
    × (w'.recovery_timer ≡ w.recovery_timer)
    × (w'.stable_timer ≡ w.stable_timer)
    × (w'.stopped ≡ w.stopped)
    × (w'.recovery_attempts ≡ w.recovery_attempts)

drop_handle-same : (o : Option ℕ) (w : Watcher) → IsSameButHandle w (drop_handle o w)
drop_handle-same none w = (refl, refl, refl, refl, refl)
drop_handle-same (some h) w = (refl, refl, refl, refl, refl)

drop_handle-IsSound :
    (w : Watcher)
    → IsSound w
    → IsSound (drop_handle w.current_handle w)
      × ((drop_handle w.current_handle w).current_handle ≡ none)
drop_handle-IsSound w sound =
    let dropped = running-drop_handle w.current_handle w sound.0 refl in
    ground (arith, sound, dropped, drop_handle-same w.current_handle w)

start_watcher-IsSound : (be : Backend) (w : Watcher) → IsSound w → IsSound (start_watcher be w).1
unfolding start_watcher
start_watcher-IsSound be w sound = ground (arith, sound)

on_watcher_error-IsSound :
    (err : WatchError) (w : Watcher) → IsSound w → IsSound (on_watcher_error err w)
unfolding on_watcher_error schedule_recovery
on_watcher_error-IsSound err w sound = ground (arith, sound, drop_handle-IsSound w sound)

recreate-IsSound :
    (be : Backend) (w : Watcher)
    → IsSound w
    → w.recovery_timer ≡ none
    → w.recovery_attempts < 4
    → IsSound (recreate be w)
unfolding recreate schedule_recovery
recreate-IsSound be w sound idle lt = ground (arith, sound, idle, lt)

due_lt : (o : Option ℕ) (n : ℕ) → ((o ≡ none) ⊎ (n < 4)) → is_some o ≡ true → n < 4
due_lt none n known due = ground (arith, due)
due_lt (some d) n known due = ground (arith, known)

on_recovery_timer-IsSound :
    (be : Backend) (w : Watcher) → IsSound w → IsSound (on_recovery_timer be w)
unfolding on_recovery_timer
on_recovery_timer-IsSound be w sound = elim (Bool-cases (is_some w.recovery_timer)) [
  | inl due ↦ rw due (
      recreate-IsSound be (record w { recovery_timer = none; recovering = false })
        (ground (arith, sound)) refl (due_lt w.recovery_timer w.recovery_attempts sound.4 due))
  | inr idle ↦ rw idle sound
]

on_ready-IsSound : (h : ℕ) (w : Watcher) → IsSound w → IsSound (on_ready h w)
unfolding on_ready
on_ready-IsSound h w sound = ground (arith, sound)

confirm-IsSound : (o : Option ℕ) (w : Watcher) → IsSound w → IsSound (confirm_stable o w)
confirm-IsSound none w sound = sound
confirm-IsSound (some h) w sound = ground (arith, sound)

pub stop_watcher-IsSound : (w : Watcher) → IsSound w → IsSound (stop_watcher w)
unfolding stop_watcher
stop_watcher-IsSound w sound =
    let bare = record w {
      stopped = true;
      recovery_timer = none;
      stable_timer = none;
      recovering = false;
    } in
    ground (
      arith,
      sound,
      running-drop_handle w.current_handle bare sound.0 refl,
      drop_handle-same w.current_handle bare,
    )

start_watcher-threw :
    (be : Backend) (w : Watcher)
    → (start_watcher be w).0 ≡ true
    → (start_watcher be w).1.current_handle ≡ none
unfolding start_watcher
start_watcher-threw be w h = ground (arith, h)

awaiting-IsSound : (o : Option ℕ) (w : Watcher) → IsSound w → IsSound (awaiting o w)
awaiting-IsSound none w sound = sound
awaiting-IsSound (some h) w sound = sound

after_start-IsSound :
    (threw : Bool) (w : Watcher)
    → IsSound w
    → (threw ≡ true → w.current_handle ≡ none)
    → IsSound (after_start (threw, w))
after_start-IsSound true w sound gone =
    schedule_recovery-IsSound (notify fatal_notice (record w { current_handle = none }))
      (ground (arith, sound, gone refl))
after_start-IsSound false w sound gone = awaiting-IsSound w.current_handle w sound

bounced-IsSound : (w : Watcher) → IsSound w → IsSound (bounced w)
bounced-IsSound w sound = ground (arith, sound, drop_handle-IsSound w sound)

update_patterns-IsSound :
    (be : Backend) (ignore include : List Text) (w : Watcher)
    → IsSound w
    → IsSound (update_patterns be ignore include w)
unfolding update_patterns
update_patterns-IsSound be ignore include w sound =
    let w' = with_patterns be ignore include w in
    let r = start_watcher be (bounced w') in
    elim (Bool-cases (same_texts w'.dir_ignores w.dir_ignores || w.stopped)) [
      | inl h ↦ rw h sound
      | inr h ↦ rw h (
          after_start-IsSound r.0 r.1
            (start_watcher-IsSound be (bounced w') (bounced-IsSound w' sound))
            (start_watcher-threw be (bounced w')))
    ]

reports-IsSound :
    (be : Backend) (ev : RawEvent) (w : Watcher)
    → IsSound w
    → IsSound (on_change be ev w) × IsSound (on_delete be ev w)
unfolding on_change on_delete
reports-IsSound be ev w sound = ground (arith, sound)

watch_step-IsSound :
    (be : Backend) (e : Happening) (w : Watcher) → IsSound w → IsSound (watch_step be e w)
unfolding watch_step on_stable_timer
watch_step-IsSound be starts w sound = start_watcher-IsSound be w sound
watch_step-IsSound be stops w sound = stop_watcher-IsSound w sound
watch_step-IsSound be (reloads ignore include) w sound =
    update_patterns-IsSound be ignore include w sound
watch_step-IsSound be (reports_change h ev) w sound =
    ground (arith, sound, reports-IsSound be ev w sound)
watch_step-IsSound be (reports_delete h ev) w sound =
    ground (arith, sound, reports-IsSound be ev w sound)
watch_step-IsSound be (reports_error err) w sound = on_watcher_error-IsSound err w sound
watch_step-IsSound be (becomes_ready h) w sound = on_ready-IsSound h w sound
watch_step-IsSound be (fails_ready h) w sound = sound
watch_step-IsSound be recovery_fires w sound = on_recovery_timer-IsSound be w sound
watch_step-IsSound be stable_fires w sound = confirm-IsSound w.stable_timer w sound

watch_run-IsSound :
    (be : Backend) (es : List Happening) (w : Watcher) → IsSound w → IsSound (watch_run be es w)
unfolding watch_run
watch_run-IsSound be [] w sound = sound
watch_run-IsSound be (e ∷ es) w sound =
    watch_run-IsSound be es (watch_step be e w) (watch_step-IsSound be e w sound)

-- From its construction on, whatever is called and whatever the framework and the timers do, the
-- framework runs the one handle that the wrapper holds and no other, a recovery is under way exactly
-- while its timer is armed, a stopped wrapper holds no handle and waits for no timer, and at most four
-- attempts are counted, with a timer armed only below four.
pub watch_run-new-IsSound :
    (be : Backend) (ignore include : List Text) (fold : Bool) (es : List Happening)
    → IsSound (watch_run be es (new_watcher be ignore include fold))
watch_run-new-IsSound be ignore include fold es =
    watch_run-IsSound be es (new_watcher be ignore include fold)
      (refl, refl, inl refl, omega arith, inl refl)
