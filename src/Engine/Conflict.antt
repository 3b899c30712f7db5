-- ===== src/Engine/Conflict.antt =====
-- lib/sync-engine.js: conflict copies and the retried unlink.
use hermitstash_sync.Prelude.{
  ℕ, zero, suc, ◌+◌, Bool, true, false, ◌||◌, Option, none, some, if◌then◌else◌, same_value, Text,
  codes, same,
}
use hermitstash_sync.Engine.State.{Engine, World, on_disk, hash_of, put_disk, move_disk}

-- `known && actual === known`
abbrev pub matches : Option ℕ → Option ℕ → Bool
matches actual wanted = same_value actual wanted

-- `_maybeSaveConflictCopy`: a rename that fails is logged, and the caller goes on.
unfoldable pub maybe_save_conflict_copy : World → Text → Option ℕ → Option ℕ → Engine → Engine
maybe_save_conflict_copy w path incoming known e = elim (on_disk w e path) [
  | none ↦ e
  | some file ↦
      let actual = hash_of (some file) in
      if matches actual incoming || matches actual known
      then e
      else if w.rename_ok path (w.conflict_path path)
      then move_disk w path (w.conflict_path path) e
      else e
]

-- RENAME_RETRY_CODES
abbrev is_retry_code : Text → Bool
is_retry_code code =
    same code (codes "EPERM") || same code (codes "EACCES") || same code (codes "EBUSY")

-- The loop of `_unlinkWithRetry`, with `left` attempts after this one: whether the file is gone.
unfoldable pub unlink_loop : World → Text → ℕ → ℕ → Bool
unlink_loop w path i zero = elim (w.unlink_result path i) [
  | none ↦ true
  | some code ↦ same code (codes "ENOENT")
]
unlink_loop w path i (suc left) =
    let retried = unlink_loop w path (i + 1) left in
    elim (w.unlink_result path i) [
      | none ↦ true
      | some code ↦
          if same code (codes "ENOENT") then true else if is_retry_code code then retried else false
    ]

-- `_unlinkWithRetry`: five attempts, for the five entries of RENAME_RETRY_DELAYS_MS.
unfoldable pub unlink_with_retry : World → Text → Engine → Bool × Engine
unlink_with_retry w path e =
    if unlink_loop w path 0 4 then (true, put_disk w path none e) else (false, e)
