-- ===== src/Watcher/Steps.antt =====
-- lib/watcher.js: the events of the framework, and the inputs that drive the wrapper.
use hermitstash_sync.Prelude.{
  ℕ, Bool, not, Option, none, some, List, [], ◌∷◌, if◌then◌else◌, Text, any, ◌==◌,
}
use hermitstash_sync.PathFilter.{replace_all, should_sync}
use hermitstash_sync.Watcher.Handle.{
  Backend, RawEvent, Watcher, changed, deleted, notify, start_watcher, stop_watcher,
  update_patterns, on_watcher_error, on_ready, on_ready_fails, on_recovery_timer, on_stable_timer,
  WatchError,
}

-- The relative path that is emitted.
abbrev pub emitted_path : Backend → Text → Text
emitted_path be path = be.caps.rt.nfc (replace_all be.caps.rt.sep b'/' path)

abbrev pub is_synced : Backend → Watcher → Text → Bool
is_synced be w path = should_sync be.caps.rt path w.include_patterns w.ignore_patterns w.case_folds

abbrev time_of : Option ℕ → ℕ
time_of none = 0
time_of (some t) = t

-- `onChange`
unfoldable pub on_change : Backend → RawEvent → Watcher → Watcher
on_change be ev w =
    if ev.is_dir
    then w
    else let path = emitted_path be ev.relative_path in
      if not (is_synced be w path)
      then w
      else notify (changed path ev.full_path ev.size (time_of ev.mtime)) w

-- `onDelete`
unfoldable pub on_delete : Backend → RawEvent → Watcher → Watcher
on_delete be ev w =
    let path = emitted_path be ev.relative_path in
    if not (is_synced be w path) then w else notify (deleted path ev.full_path) w

-- What happens to the wrapper: its caller's calls, the framework's callbacks, and its timers.
pub data Happening : Type 0 where
  starts stops : Happening
  reloads : List Text → List Text → Happening
  reports_change reports_delete : ℕ → RawEvent → Happening
  reports_error : WatchError → Happening
  becomes_ready fails_ready : ℕ → Happening
  recovery_fires stable_fires : Happening

abbrev runs : Watcher → ℕ → Bool
runs w h = any (λ r. r == h) w.running

-- A stopped handle reports no change; an error may still come from it.
unfoldable pub watch_step : Backend → Happening → Watcher → Watcher
watch_step be starts w = (start_watcher be w).1
watch_step be stops w = stop_watcher w
watch_step be (reloads ignore include) w = update_patterns be ignore include w
watch_step be (reports_change h ev) w = if runs w h then on_change be ev w else w
watch_step be (reports_delete h ev) w = if runs w h then on_delete be ev w else w
watch_step be (reports_error err) w = on_watcher_error err w
watch_step be (becomes_ready h) w = on_ready h w
watch_step be (fails_ready h) w = on_ready_fails h w
watch_step be recovery_fires w = on_recovery_timer be w
watch_step be stable_fires w = on_stable_timer w

unfoldable pub watch_run : Backend → List Happening → Watcher → Watcher
watch_run be [] w = w
watch_run be (e ∷ es) w = watch_run be es (watch_step be e w)
