-- ===== src/Engine/Local/Upload.antt =====
-- lib/sync-engine.js: _uploadFile. The retries and the circuit breaker of the framework are in the
-- answer; a file that changes while it is sent is the World's `after_upload`.
use hermitstash_sync.Prelude.{
  ℕ, ◌+◌, ◌-◌, ◌||◌, true, Option, none, some, [], ◌∷◌, ◌++◌, if◌then◌else◌, or_else, same_value,
  Text,
}
use hermitstash_sync.Transfer.{File}
use hermitstash_sync.StateDb.Rows.{
  Row, blank, get_file, synced as synced_row, error as error_row, pending_upload, pending_delete,
}
use hermitstash_sync.Engine.State.{
  Engine, World, Receipt, accepted, rejected, unsent, uploading, delete_request, on_disk, hash_of,
  put_disk, upsert, mark, forget, is_catching_up, row_or_blank,
}
use hermitstash_sync.Engine.Suppress.{is_suppressed}
use hermitstash_sync.Engine.Cursor.{set_state, maybe_mark_synced}
use hermitstash_sync.Engine.Download.{add_failure, clear_failure}

abbrev pub begin_upload : Engine → Engine
begin_upload e =
    let e' = record e { active_ops = e.active_ops + 1 } in
    if is_catching_up e'.state then e' else set_state uploading e'

-- The `finally`. Every upload runs in the pool, which counts it until it is over, so that the pool is
-- busy here.
abbrev pub end_upload : Engine → Engine
end_upload e = maybe_mark_synced true (record e { active_ops = e.active_ops - 1 })

-- The row of a file that is on the server with the digest `uploaded`, but not as it is on the disk.
abbrev pub changed_row : Text → Receipt → Option ℕ → Option File → Option Row → Row
changed_row path r uploaded now existing = record (row_or_blank path existing) {
  server_file_id = r.file_id;
  local_checksum = uploaded;
  server_checksum = uploaded;
  local_mtime = elim now [
    | some file ↦ some file.mtime
    | none ↦ (row_or_blank path existing).local_mtime
  ];
  size = elim now [ some file ↦ some file.bytes | none ↦ (row_or_blank path existing).size ];
  server_seq = r.seq;
  status = pending_upload;
}

abbrev pub sent_row : Text → Receipt → Option ℕ → File → Row
sent_row path r uploaded file = record (blank path) {
  server_file_id = r.file_id;
  local_checksum = uploaded;
  server_checksum = uploaded;
  local_mtime = some file.mtime;
  size = some file.bytes;
  server_seq = r.seq;
  status = synced_row;
}

abbrev pub undeleted_row : Text → Receipt → ℕ → Option ℕ → Option Row → Row
undeleted_row path r id uploaded existing = record (row_or_blank path existing) {
  server_file_id = some id;
  local_checksum = uploaded;
  server_checksum = uploaded;
  server_seq = r.seq;
  status = pending_delete;
}

-- The file was deleted while it was sent: its copy on the server goes, now or in a later sweep.
unfoldable pub retract_upload : World → Text → Receipt → ℕ → Option ℕ → Engine → Engine
retract_upload w path r id uploaded e =
    let e' = record e { sent = e.sent ++ (delete_request id ∷ []) } in
    if w.delete_ok id
    then forget path e'
    else upsert (undeleted_row path r id uploaded (get_file path e.db.files)) e'

-- The three ends of an upload that the server took: the file is gone, and its copy is to go too; the
-- file is not what was sent; or it is. `now` is what is on the disk afterwards, `id` the server's id.
-- That a changed file also asks for a rescan is left out.
unfoldable pub settle_found :
    World → Text → Receipt → Option ℕ → Option File → Option ℕ → Engine → Engine
settle_found w path r uploaded none (some id) e = retract_upload w path r id uploaded e
settle_found w path r uploaded none none e =
    upsert (changed_row path r uploaded none (get_file path e.db.files)) e
settle_found w path r uploaded (some file) id e =
    if same_value (hash_of (some file)) uploaded
    then upsert (sent_row path r uploaded file) e
    else upsert (changed_row path r uploaded (some file) (get_file path e.db.files)) e

unfoldable pub settle_upload : World → Text → Receipt → Option ℕ → Engine → Engine
settle_upload w path r uploaded e =
    settle_found w path r uploaded (on_disk w e path) r.file_id (clear_failure path e)

-- The `try` block, after the bytes were sent.
unfoldable pub upload_body : World → Text → Option ℕ → Engine → Engine
upload_body w path uploaded_checksum e = elim (w.upload path) [
  | rejected ↦ add_failure path (mark path error_row e)
  | unsent ↦ mark path error_row e
  | accepted r ↦
      let e' = put_disk w path (w.after_upload path) e in
      if w.interrupted || e.resyncing || e.stopped
      then e'
      else settle_upload w path r (or_else r.checksum uploaded_checksum) e'
]

-- `_uploadFile`
unfoldable pub upload_file : World → Text → Option ℕ → Engine → Engine
upload_file w path uploaded_checksum e =
    if is_suppressed w path e
    then e
    else end_upload (upload_body w path uploaded_checksum (begin_upload e))
