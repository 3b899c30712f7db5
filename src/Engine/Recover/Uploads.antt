-- ===== src/Engine/Recover/Uploads.antt =====
-- lib/sync-engine.js: _recoverPendingUploads, the sweep of files whose bytes never reached the server.
-- An entry of the disk is a file, so that the tests for a directory have no counterpart.
use hermitstash_sync.Prelude.{
  ℕ, Bool, not, ◌&&◌, ◌||◌, none, some, List, [], ◌∷◌, if◌then◌else◌, is_some, same_value, any,
  keep_if, same,
}
use hermitstash_sync.Transfer.{File}
use hermitstash_sync.StateDb.Rows.{
  Row, Files, get_files_by_status, pending_upload, synced as synced_row, error as error_row,
}
use hermitstash_sync.Engine.State.{Engine, World, on_disk, hash_of, upsert}
use hermitstash_sync.Engine.Suppress.{is_suppressed}
use hermitstash_sync.Engine.Local.Upload.{upload_file}

-- The row while its upload is tried again.
abbrev pub retried_row : Row → File → ℕ → Row
retried_row row file checksum = record row {
  local_checksum = some checksum;
  size = some file.bytes;
  local_mtime = some file.mtime;
  status = pending_upload;
}

abbrev pub landed_upload_row : Row → Row
landed_upload_row row = record row { local_checksum = row.server_checksum; status = synced_row }

unfoldable pub redrive_upload : World → Row → File → Engine → Engine
redrive_upload w row file e = elim (hash_of (some file)) [
  | none ↦ e
  | some checksum ↦
      upload_file w row.relative_path (some checksum) (upsert (retried_row row file checksum) e)
]

-- A row that is marked for upload, with its file.
unfoldable pub recover_upload_found : World → Row → File → Engine → Engine
recover_upload_found w row file e =
    if is_some row.server_checksum && same_value (hash_of (some file)) row.server_checksum
    then upsert (landed_upload_row row) e
    else if any (same row.relative_path) e.permanent_failures
    then e
    else redrive_upload w row file e

unfoldable pub recover_upload : World → Row → Engine → Engine
recover_upload w row e =
    let path = row.relative_path in
    if not (w.safe_local_path path) || is_suppressed w path e
    then e
    else elim (on_disk w e path) [ none ↦ e | some file ↦ recover_upload_found w row file e ]

-- A row in ERROR that the server has nothing of.
abbrev pub is_stranded_new : Row → Bool
is_stranded_new row =
    not (is_some row.server_file_id)
    && not (is_some row.server_checksum)
    && is_some row.local_checksum

unfoldable pub recover_new : World → Row → Engine → Engine
recover_new w row e =
    let path = row.relative_path in
    if not (w.safe_local_path path)
      || is_suppressed w path e
      || any (same path) e.permanent_failures
    then e
    else elim (on_disk w e path) [ none ↦ e | some file ↦ redrive_upload w row file e ]

-- A loop over rows, which stop and resync end.
unfoldable pub for_rows : (Row → Engine → Engine) → List Row → Engine → Engine
for_rows f [] e = e
for_rows f (row ∷ rows) e =
    let e' = for_rows f rows (f row e) in if e.stopped || e.resyncing then e else e'

abbrev pub stranded_new : Files → List Row
stranded_new files = keep_if is_stranded_new (get_files_by_status error_row files)

-- `_recoverPendingUploads`
unfoldable pub recover_pending_uploads : World → Engine → Engine
recover_pending_uploads w e =
    if e.stopped || e.resyncing || not e.has_http
    then e
    else if w.pool_busy
    then e
    else for_rows (recover_new w) (stranded_new e.db.files)
        (for_rows (recover_upload w) (get_files_by_status pending_upload e.db.files) e)
