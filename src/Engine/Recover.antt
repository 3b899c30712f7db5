-- ===== src/Engine/Recover.antt =====
-- lib/sync-engine.js: the sweeps that take up unfinished work again: downloads by _recoverPending and
-- deletes by _recoverPendingDeletes; the sweep of uploads and the whole are modules of their own.
pub mod Laws
pub mod Uploads
pub mod Sweep
pub mod Aside
pub mod Beside
pub mod Sent
use hermitstash_sync.Prelude.{
  ℕ, zero, suc, ◌+◌, ◌-◌, ◌*◌, ◌≤◌, ◌<◌, min, max, ◌≡◌, ◌≢◌, ◌↔◌, ◌⊎◌, inl, inr, refl, sym, ap,
  subst, ◌∙◌, Bool, true, false, not, ◌&&◌, ◌||◌, Option, none, some, List, [], ◌∷◌, ◌++◌, map,
  arith, ltb, leb, ◌==◌, ==_iff, if◌then◌else◌, Bool-cases, Option-cases, is_some, or_else,
  or_number, same_value, length, any, keep_if, All, Text, codes, same, same_iff, same_refl,
  is_empty, includes,
}
use hermitstash_sync.StateDb.Rows.{
  Row, Files, get_file, get_files_by_status, pending_download, pending_delete, is_status,
  error as error_row, synced as synced_row,
}
use hermitstash_sync.Engine.State.{Engine, World, on_disk, hash_of, upsert, row_or_blank}
use hermitstash_sync.Engine.Suppress.{suppress, release, is_suppressed}
use hermitstash_sync.Engine.Conflict.{maybe_save_conflict_copy}
use hermitstash_sync.Engine.Download.{download_path, lacks}
use hermitstash_sync.Engine.Local.Delete.{execute_delete}

-- The rows that `_recoverPending` enumerates.
abbrev pub unfinished_rows : Files → List Row
unfinished_rows files =
    get_files_by_status pending_download files ++ get_files_by_status error_row files

abbrev pub converged_row : Text → ℕ → ℕ → Option Row → Row
converged_row path id checksum existing = record (row_or_blank path existing) {
  local_checksum = some checksum;
  server_checksum = some checksum;
  server_file_id = some id;
  status = synced_row;
  needs_bytes = 0;
}

-- The download of a row that is still to do: no digest is known to be safe to write over.
unfoldable pub redrive : World → Row → ℕ → ℕ → Engine → Bool × Engine
redrive w row id checksum e =
    let path = row.relative_path in
    let copied = maybe_save_conflict_copy w path (some checksum) none (suppress w path e) in
    let (done, e') = download_path w path (some id) (some checksum) row.size copied in
    (done, release w path e')

-- One row of the sweep, whether it converged.
unfoldable pub recover_named : World → Row → ℕ → ℕ → Engine → Bool × Engine
recover_named w row id checksum e =
    let path = row.relative_path in
    if any (same path) e.permanent_failures || not (w.safe_path path)
    then (false, e)
    else if same_value (hash_of (on_disk w e path)) (some checksum)
    then (true, upsert (converged_row path id checksum (get_file path e.db.files)) e)
    else if ltb 0 row.needs_bytes && lacks w.free_space row.needs_bytes
    then (false, e)
    else redrive w row id checksum e

unfoldable pub recover_row : World → Row → Engine → Bool × Engine
recover_row w row e =
    if is_suppressed w row.relative_path e then (false, e) else elim row.server_file_id [
      | none ↦ (false, e)
      | some id ↦ elim row.server_checksum [
        | none ↦ (false, e)
        | some checksum ↦ recover_named w row id checksum e
      ]
    ]

-- The loop over the rows: how many converged.
unfoldable pub recover_rows : World → List Row → Engine → ℕ × Engine
recover_rows w [] e = (0, e)
recover_rows w (row ∷ rows) e =
    let (done, e') = recover_row w row e in
    let (landed, e'') = recover_rows w rows e' in
    if e.stopped || e.resyncing then (0, e) else (if done then landed + 1 else landed, e'')

-- One row of `_recoverPendingDeletes`.
unfoldable pub recover_delete : World → Row → Engine → Engine
recover_delete w row e =
    let path = row.relative_path in
    if is_suppressed w path e || not (w.safe_local_path path) || is_some (on_disk w e path)
    then e
    else elim (get_file path e.db.files) [
      | none ↦ e
      | some now ↦
          if is_status now.status pending_delete then (execute_delete w path now false e).1 else e
    ]

unfoldable pub recover_deletes : World → List Row → Engine → Engine
recover_deletes w [] e = e
recover_deletes w (row ∷ rows) e =
    let e' = recover_deletes w rows (recover_delete w row e) in
    if e.stopped || e.resyncing then e else e'

-- `_recoverPendingDeletes`
unfoldable pub recover_pending_deletes : World → Engine → Engine
recover_pending_deletes w e =
    if e.stopped || e.resyncing || not e.has_http
    then e
    else recover_deletes w (get_files_by_status pending_delete e.db.files) e
