-- ===== src/Watcher/Silent.antt =====
-- lib/watcher.js: a stopped wrapper.
use hermitstash_sync.Prelude.{
  Bool, true, false, none, some, Option, ℕ, List, [], ◌∷◌, All, ◌≡◌, refl, arith, ◌∙◌, ap, listed,
  inl, inr,
}
use hermitstash_sync.Watcher.Handle.{
  Backend, Watcher, Notice, drop_handle, on_watcher_error, on_ready, on_recovery_timer,
  on_stable_timer, stop_watcher, update_patterns, confirm_stable,
}
use hermitstash_sync.Watcher.Steps.{
  Happening, starts, stops, reloads, reports_change, reports_delete, reports_error, becomes_ready,
  fails_ready, recovery_fires, stable_fires, watch_step, watch_run,
}
use hermitstash_sync.Watcher.Sound.{IsSound, IsQuiet, stop_watcher-IsSound}

abbrev pub is_start : Happening → Bool
is_start starts = true
is_start _ = false

-- Stopped, with no handle, none running, and no timer.
abbrev pub IsStopped : Watcher → Type 0
IsStopped w = (w.stopped ≡ true) × IsQuiet w × (w.running ≡ [])

-- Stopped, having called for no handle and told nothing since.
abbrev pub StaysStopped : Watcher → Watcher → Type 0
StaysStopped w w' = IsStopped w' × (w'.notices ≡ w.notices) × (w'.next ≡ w.next)

confirm-StaysStopped :
    (o : Option ℕ) (w : Watcher) → IsStopped w → o ≡ none → StaysStopped w (confirm_stable o w)
confirm-StaysStopped none w off h = (off, refl, refl)
confirm-StaysStopped (some c) w off h = ground (arith, h)

watch_step-StaysStopped :
    (be : Backend) (e : Happening) (w : Watcher)
    → is_start e ≡ false
    → IsStopped w
    → StaysStopped w (watch_step be e w)
unfolding watch_step stop_watcher on_watcher_error on_ready on_recovery_timer on_stable_timer
    update_patterns
watch_step-StaysStopped be starts w h off = ground (arith, h)
watch_step-StaysStopped be stops w h (hs, (hh, ht, hc), hr) =
    rw (hh, hr) ((refl, (refl, refl, refl), refl), refl, refl)
watch_step-StaysStopped be (reloads ignore include) w h off = ground (arith, off)
watch_step-StaysStopped be (reports_change n ev) w h off = ground (arith, off)
watch_step-StaysStopped be (reports_delete n ev) w h off = ground (arith, off)
watch_step-StaysStopped be (reports_error err) w h off = ground (arith, off)
watch_step-StaysStopped be (becomes_ready n) w h off = ground (arith, off)
watch_step-StaysStopped be (fails_ready n) w h off = ground (arith, off)
watch_step-StaysStopped be recovery_fires w h off = ground (arith, off)
watch_step-StaysStopped be stable_fires w h off = confirm-StaysStopped w.stable_timer w off off.1.2

abbrev pub NoStart : List Happening → Type 0
NoStart es = All (λ e. is_start e ≡ false) es

watch_run-StaysStopped :
    (be : Backend) (es : List Happening) (w : Watcher)
    → NoStart es
    → IsStopped w
    → StaysStopped w (watch_run be es w)
unfolding watch_run
watch_run-StaysStopped be [] w hs off = (off, refl, refl)
watch_run-StaysStopped be (e ∷ es) w (h, hs) off =
    let now = watch_step-StaysStopped be e w h off in
    let later = watch_run-StaysStopped be es (watch_step be e w) hs now.0 in
    (later.0, later.1 ∙ now.1, later.2 ∙ now.2)

told_by_stop :
    (o : Option ℕ) (w : Watcher)
    → ((drop_handle o w).notices ≡ w.notices)
      × ((drop_handle o w).next ≡ w.next)
      × ((drop_handle o w).stopped ≡ w.stopped)
told_by_stop none w = (refl, refl, refl)
told_by_stop (some h) w = (refl, refl, refl)

nothing_runs : (o : Option ℕ) (rs : List ℕ) → rs ≡ listed o → o ≡ none → rs ≡ []
nothing_runs o rs hr h = hr ∙ ap listed h

stopped_quietly :
    {ns : List Notice} {k : ℕ} (w' : Watcher)
    → (w'.notices ≡ ns) × (w'.next ≡ k) × (w'.stopped ≡ true)
    → IsSound w'
    → IsStopped w' × (w'.notices ≡ ns) × (w'.next ≡ k)
stopped_quietly w' (hn, hk, hs) sound = elim sound.2 [
  | inl going ↦ ground (arith, hs, going)
  | inr quiet ↦ ((hs, quiet, nothing_runs w'.current_handle w'.running sound.0 quiet.0), hn, hk)
]

stop_watcher-IsStopped : (w : Watcher) → IsSound w → StaysStopped w (stop_watcher w)
unfolding stop_watcher
stop_watcher-IsStopped w sound =
    let bare = record w {
      stopped = true;
      recovery_timer = none;
      stable_timer = none;
      recovering = false;
    } in
    stopped_quietly (stop_watcher w) (told_by_stop w.current_handle bare)
      (stop_watcher-IsSound w sound)

-- A sound wrapper that is stopped holds no handle, leaves none running in the framework, waits for no
-- timer, creates no handle and tells its listeners nothing, whatever errors, baselines, timers and
-- reloads of the patterns still reach it, until start is called.
pub stop_is_final :
    (be : Backend) (es : List Happening) (w : Watcher)
    → NoStart es
    → IsSound w
    → StaysStopped w (watch_run be (stops ∷ es) w)
unfolding watch_run watch_step
stop_is_final be es w hs sound =
    let now = stop_watcher-IsStopped w sound in
    let later = watch_run-StaysStopped be es (stop_watcher w) hs now.0 in
    (later.0, later.1 ∙ now.1, later.2 ∙ now.2)
