-- ===== src/Engine/Inbound/Gate.antt =====
-- lib/sync-engine.js: what the inbound handlers share: the event, the tests in front of an apply and
-- the brackets around it.
use hermitstash_sync.Prelude.{ℕ, ◌+◌, ◌-◌, Bool, not, ◌&&◌, Option, if◌then◌else◌, Text, is_empty}
use hermitstash_sync.PathFilter.{should_sync}
use hermitstash_sync.Engine.State.{Engine, World}
use hermitstash_sync.Engine.Suppress.{suppress, release}
use hermitstash_sync.Engine.Cursor.{update_seq, maybe_finish_catch_up}

-- The fields of file_added, file_replaced and file_renamed events; one that is absent is `none`.
pub record FileEvent : Type 0 where
  pub file_id : Option ℕ
  pub relative_path : Text
  pub checksum : Option ℕ
  pub size : Option ℕ
  pub seq : ℕ

-- `_shouldSync`
unfoldable pub in_sync_scope : World → Text → Bool
in_sync_scope w path = should_sync w.runtime path w.include w.ignore w.fs_case_folds

-- `_validateServerPath`, without its advance of the cursor.
unfoldable pub valid_server_path : World → Text → Bool
valid_server_path w path = not (is_empty path) && w.valid_name path

-- The early returns of the handlers: an event that is refused only advances the cursor.
unfoldable pub is_accepted : World → Text → Bool
is_accepted w path = w.safe_path path && valid_server_path w path && in_sync_scope w path

-- What precedes the `try` of a handler, and its `finally`.
unfoldable pub enter : World → Text → Engine → Engine
enter w path e = suppress w path (record e { catch_up_pending = e.catch_up_pending + 1 })

unfoldable pub leave : World → Text → Engine → Engine
leave w path e =
    let e' = release w path e in
    maybe_finish_catch_up w (record e' { catch_up_pending = e'.catch_up_pending - 1 })

-- `if (ok) this._updateSeq(seq)`
abbrev pub advance_if : World → ℕ → Bool × Engine → Engine
advance_if w seq (done, e) = if done then update_seq w seq e else e
