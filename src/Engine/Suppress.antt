-- ===== src/Engine/Suppress.antt =====
-- lib/sync-engine.js: which paths the watcher's events are ignored for, and the brackets around
-- an apply.
use hermitstash_sync.Prelude.{◌+◌, ◌-◌, Bool, if◌then◌else◌, Text, same, ltb}
use hermitstash_sync.Engine.State.{Engine, World}

-- `_suppKey`
unfoldable pub supp_key : World → Text → Text
supp_key w path = if w.fs_case_folds then w.runtime.lower path else path

-- `_suppressPath`
unfoldable pub suppress : World → Text → Engine → Engine
suppress w path e = record e {
  held = λ key. if same (supp_key w path) key then e.held key + 1 else e.held key;
}

-- `_releasePath`: an entry that falls to 0 is dropped.
unfoldable pub release : World → Text → Engine → Engine
release w path e = record e {
  held = λ key. if same (supp_key w path) key then e.held key - 1 else e.held key;
}

-- `_isSuppressed`
unfoldable pub is_suppressed : World → Text → Engine → Bool
is_suppressed w path e = ltb 0 (e.held (supp_key w path))
