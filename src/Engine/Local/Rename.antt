-- ===== src/Engine/Local/Rename.antt =====
-- lib/sync-engine.js: a buffered delete that a new file of the same content claims, and the rename of
-- the two on the server.
use hermitstash_sync.Prelude.{
  ℕ, ◌+◌, Bool, true, false, not, ◌&&◌, ◌||◌, Option, none, some, List, [], ◌∷◌, ltb, if◌then◌else◌,
  same_value, length, keep_if, Text, same,
}
use hermitstash_sync.PathFilter.{basename, drop_end}
use hermitstash_sync.StateDb.Rows.{
  Row, blank, rename_file, synced as synced_row, error as error_row, pending_upload,
}
use hermitstash_sync.Engine.State.{Engine, World, Pending, set_files, upsert, mark, is_disconnected}
use hermitstash_sync.Engine.Suppress.{supp_key}
use hermitstash_sync.Engine.Local.Delete.{
  Outcome, failed, execute_delete, execute_delete_locked, delete_key,
}

-- `nodePath.dirname` of a relative path, with the empty text for `.`.
abbrev pub dirname : Text → Text
dirname path = drop_end (length (basename path) + 1) path

-- Same digest, same size, and the same name or the same directory.
abbrev pub claims : Text → ℕ → ℕ → Text × Pending → Bool
claims new checksum size (old, pending) =
    same_value pending.checksum (some checksum)
    && same_value pending.size (some size)
    && (same (basename old) (basename new) || same (dirname old) (dirname new))

abbrev pub only_one : List (Text × Pending) → Option (Text × Pending)
only_one [] = none
only_one (entry ∷ []) = some entry
only_one (entry ∷ other ∷ rest) = none

-- The delete that a file claims, if there is exactly one; an empty file claims none.
unfoldable pub rename_source : Text → ℕ → ℕ → List (Text × Pending) → Option (Text × Pending)
rename_source new checksum size pending_deletes =
    if ltb 0 size then only_one (keep_if (claims new checksum size) pending_deletes) else none

-- The row after the server renamed: SYNCED only if the content is what the server had.
abbrev pub server_has : Pending → ℕ → Bool
server_has pending checksum = same_value pending.existing.server_checksum (some checksum)

abbrev pub moved_row : Text → Pending → ℕ → ℕ → Option ℕ → ℕ → Row
moved_row new pending checksum size mtime seq = record (blank new) {
  server_file_id = pending.file_id;
  local_checksum = some checksum;
  server_checksum =
      if server_has pending checksum then some checksum else pending.existing.server_checksum;
  local_mtime = mtime;
  size = some size;
  server_seq = seq;
  status = if server_has pending checksum then synced_row else pending_upload;
}

abbrev pub unsent_row : Text → ℕ → ℕ → Option ℕ → Row
unsent_row new checksum size mtime = record (blank new) {
  local_checksum = some checksum;
  local_mtime = mtime;
  size = some size;
  status = pending_upload;
}

abbrev pub delete_old : World → Text → Text → Pending → Engine → Outcome × Engine
delete_old w old new pending e =
    if same (supp_key w old) (supp_key w new)
    then execute_delete_locked w old pending.existing true e
    else execute_delete w old pending.existing true e

abbrev pub is_failed : Outcome → Bool
is_failed failed = true
is_failed _ = false

-- The fallback, where the server did not rename: the old path is deleted there, and `true` asks for the
-- new one to be uploaded.
unfoldable pub rename_fallback :
    World → Text → Text → Pending → ℕ → ℕ → Option ℕ → Engine → Bool × Engine
rename_fallback w old new pending checksum size mtime e =
    let (outcome, e') = delete_old w old new pending e in
    if w.interrupted || e.stopped || is_disconnected e.state || e.resyncing || not e.has_http
    then (false, mark old error_row e)
    else if is_failed outcome
    then (
      false,
      if w.safe_local_path new then upsert (unsent_row new checksum size mtime) e' else e',
    )
    else (w.safe_local_path new, e')

-- The `try` block of `_handleLocalRename` with its `catch`.
unfoldable pub rename_step :
    World → Text → Text → Pending → ℕ → ℕ → Option ℕ → Engine → Bool × Engine
rename_step w old new pending checksum size mtime e = elim (w.rename_on_server old new) [
  | none ↦ rename_fallback w old new pending checksum size mtime e
  | some seq ↦ (
    false,
    set_files
        (rename_file (delete_key old pending.existing)
          (moved_row new pending checksum size mtime seq) e.db.files).0
        e,
  )
]
