-- ===== src/Tests/WatcherRuns.antt =====
-- A watcher that is lost, comes back, gives up, and is stopped.
use hermitstash_sync.Prelude.{
  ◌≡◌, ◌↔◌, refl, true, false, none, some, [], ◌∷◌, ◌++◌, ◌+◌, ◌&&◌, ◌==◌, List, Text, codes, arith,
  ltb,
}
use hermitstash_sync.Watcher.Patterns.{Caps, dir_prefix_ignores, has_text}
use hermitstash_sync.Watcher.Forwarded.{IsWanted, IsTaken, dir_prefix_ignores_iff}
use hermitstash_sync.Watcher.Handle.{
  Backend, WatchError, Watcher, new_watcher, is_fatal_watch_error,
}
use hermitstash_sync.Watcher.Steps.{
  starts, stops, reloads, reports_error, becomes_ready, recovery_fires, stable_fires, Happening,
  watch_run,
}
use hermitstash_sync.Watcher.Sound.{IsSound, watch_run-new-IsSound}
use hermitstash_sync.Watcher.Silent.{StaysStopped, stop_is_final}
use hermitstash_sync.Watcher.Revive.{IsDegraded, throws, dies, attempts, crashes_degrade}
use hermitstash_sync.Watcher.Comeback.{IsBack, fires, recovery_revives}
use hermitstash_sync.Tests.Host.{linux}

abbrev caps : Caps
caps = record { rt = linux.runtime; nfd = λ t. t; max_len = 256; max_stars = 8 }

-- The first call throws, the others do not.
abbrev flaky : Backend
flaky = record { caps = caps; create_throws = λ n ps. ltb n 1 }

abbrev ignored : List Text
ignored = codes "data/cache" ∷ codes "*.tmp" ∷ []

abbrev lost : WatchError
lost = record { code = codes "watcher/root-lost"; fatal = true }

abbrev idle_watcher : Watcher
idle_watcher = new_watcher flaky ignored [] false

-- The handle was lost, and the first attempt is due.
abbrev down : Watcher
down = record idle_watcher { recovering = true; recovery_timer = some 500 }

abbrev storm_of_events : List Happening
storm_of_events =
    starts
    ∷ starts
    ∷ reports_error lost
    ∷ reloads [] []
    ∷ recovery_fires
    ∷ becomes_ready 2
    ∷ reports_error lost
    ∷ stops
    ∷ []

watch_run-new-IsSound_example :
    IsSound (watch_run flaky storm_of_events (new_watcher flaky ignored [] false))
watch_run-new-IsSound_example = watch_run-new-IsSound flaky ignored [] false storm_of_events

abbrev started : Watcher
started = watch_run flaky (starts ∷ starts ∷ []) idle_watcher

stop_is_final_example :
    StaysStopped started
      (watch_run flaky (stops ∷ reports_error lost ∷ recovery_fires ∷ reloads [] [] ∷ []) started)
stop_is_final_example =
    stop_is_final flaky (reports_error lost ∷ recovery_fires ∷ reloads [] [] ∷ []) started
      (refl, (refl, (refl, tt)))
      (watch_run-new-IsSound flaky ignored [] false (starts ∷ starts ∷ []))

lost_is_fatal : is_fatal_watch_error lost ≡ true
unfolding is_fatal_watch_error
lost_is_fatal = refl

-- The first attempt is refused, and the handles of the others die.
crashes_degrade_example :
    IsDegraded
      (watch_run flaky (attempts (throws ∷ dies 1 lost ∷ dies 2 lost ∷ dies 3 lost ∷ [])) down)
crashes_degrade_example =
    crashes_degrade flaky (throws ∷ dies 1 lost ∷ dies 2 lost ∷ dies 3 lost ∷ []) down 0
      (refl, (lost_is_fatal, (lost_is_fatal, (lost_is_fatal, tt))))
      (refl, refl, refl, refl, refl, refl, omega arith) refl

recovery_revives_example :
    IsBack
      (watch_run flaky (fires 1 ++ recovery_fires ∷ becomes_ready (0 + 1) ∷ stable_fires ∷ []) down)
      (0 + 1)
      (dir_prefix_ignores caps ignored)
      []
recovery_revives_example =
    recovery_revives flaky 1 down 0 0 (dir_prefix_ignores caps ignored) []
      ((refl, refl, refl, refl, refl, refl, omega arith), refl, refl, refl, refl) (omega arith)
      (λ j less. ground (arith, less)) refl

-- The NFD spelling is another text here.
abbrev mac_caps : Caps
mac_caps = record caps { nfd = λ t. t ++ codes "^" }

dir_prefix_ignores_iff_example :
    (has_text (codes "data/cache^") (dir_prefix_ignores mac_caps ignored) ≡ true)
    ↔ (IsWanted mac_caps (codes "data/cache^") ignored × IsTaken mac_caps (codes "data/cache^"))
dir_prefix_ignores_iff_example = dir_prefix_ignores_iff mac_caps (codes "data/cache^") ignored

-- The subtree is forwarded, the extension is not.
forwarded : dir_prefix_ignores caps ignored ≡ codes "data/cache" ∷ []
unfolding dir_prefix_ignores hermitstash_sync.Prelude.same hermitstash_sync.Prelude.includes
    hermitstash_sync.PathFilter.classify_pattern hermitstash_sync.PathFilter.classify_folded
    hermitstash_sync.PathFilter.starts_with hermitstash_sync.PathFilter.ends_with
    hermitstash_sync.PathFilter.replace_all
forwarded = refl
