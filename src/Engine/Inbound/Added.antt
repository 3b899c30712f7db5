-- ===== src/Engine/Inbound/Added.antt =====
-- lib/sync-engine.js: file_added and file_replaced, and the reconciliation of a tracked file's casing.
use hermitstash_sync.Prelude.{
  ℕ, Bool, true, false, not, ◌&&◌, Option, none, some, if◌then◌else◌, is_some, or_else, or_number,
  same_value, Text, same,
}
use hermitstash_sync.StateDb.Rows.{Row, blank, rename_file, synced, pending_download}
use hermitstash_sync.Engine.State.{
  Engine, World, identity_key, on_disk, move_disk, upsert, set_files, lookup_tracked,
}
use hermitstash_sync.Engine.Cursor.{update_seq, note_unapplied_seq}
use hermitstash_sync.Engine.Conflict.{maybe_save_conflict_copy}
use hermitstash_sync.Engine.Download.{download_path}
use hermitstash_sync.Engine.Inbound.Gate.{FileEvent, is_accepted, enter, leave, advance_if}

-- A row that a download is to fill.
abbrev pub pending_row : Text → FileEvent → Row → Row
pending_row path msg row = record row {
  relative_path = path;
  server_file_id = msg.file_id;
  server_checksum = msg.checksum;
  size = msg.size;
  server_seq = msg.seq;
  status = pending_download;
}

-- The server's view of a file whose bytes are here already.
abbrev pub confirmed_row : Text → FileEvent → Row → Row
confirmed_row path msg row = record row {
  relative_path = path;
  server_seq = msg.seq;
  server_checksum = msg.checksum;
  server_file_id = msg.file_id;
}

-- The two-step rename of a file to the server's casing, through a temporary name. `false` is a
-- failure; a file left under the temporary name is moved back if that succeeds.
unfoldable pub recase_disk : World → Text → Text → Engine → Bool × Engine
recase_disk w old_path path e =
    let tmp = w.temp_path path in
    let e' = move_disk w old_path tmp e in
    if not (w.safe_local_path old_path && is_some (on_disk w e old_path))
    then (true, e)
    else if not (w.rename_ok old_path tmp)
    then (false, e)
    else if w.rename_ok tmp path
    then (true, move_disk w tmp path e')
    else (false, if w.rename_ok tmp old_path then move_disk w tmp old_path e' else e')

abbrev recased_row : Text → FileEvent → Row → Bool → Row
recased_row path msg existing bytes_match = record existing {
  relative_path = path;
  server_file_id = or_else msg.file_id existing.server_file_id;
  server_checksum = msg.checksum;
  local_checksum = if bytes_match then msg.checksum else existing.local_checksum;
  size = or_number msg.size existing.size;
  server_seq = msg.seq;
  status = if bytes_match then synced else pending_download;
}

-- `_reconcileCaseRename` after the disk was moved.
unfoldable pub recase_row : World → Row → Text → FileEvent → Engine → Engine
recase_row w existing path msg e =
    let bytes_match =
      same_value existing.local_checksum msg.checksum && is_some (on_disk w e path) in
    let e' =
      set_files
        (rename_file existing.relative_path (recased_row path msg existing bytes_match)
          e.db.files).0
        e in
    let copied = maybe_save_conflict_copy w path msg.checksum existing.server_checksum e' in
    if bytes_match
    then update_seq w msg.seq e'
    else advance_if w msg.seq (download_path w path msg.file_id msg.checksum msg.size copied)

-- `_reconcileCaseRename`
unfoldable pub reconcile_case_rename : World → Row → Text → FileEvent → Engine → Engine
reconcile_case_rename w existing path msg e =
    let (moved, e') = recase_disk w existing.relative_path path e in
    if moved then recase_row w existing path msg e' else note_unapplied_seq msg.seq e'

-- The download of an event's file over whatever is on the disk, after a conflict copy. `base` is
-- the row that the pending row is made from, and `known` a digest that needs no copy.
unfoldable pub fetch_event : World → Text → FileEvent → Row → Option ℕ → Engine → Engine
fetch_event w path msg base known e = advance_if w msg.seq (
    download_path w path msg.file_id msg.checksum msg.size
      (upsert (pending_row path msg base) (maybe_save_conflict_copy w path msg.checksum known e)))

-- The `try` block of `_handleFileAdded`: a new file, a case variant of a tracked one, one that is in
-- sync, or one to download.
unfoldable pub apply_added : World → Text → FileEvent → Option ℕ → Option Row → Engine → Engine
apply_added w path msg known none e = fetch_event w path msg (blank path) known e
apply_added w path msg known (some existing) e =
    if not (same existing.relative_path path)
    then reconcile_case_rename w existing path msg e
    else if same_value existing.local_checksum msg.checksum
    then update_seq w msg.seq (upsert (confirmed_row path msg existing) e)
    else fetch_event w path msg (blank path) (or_else known existing.server_checksum) e

-- `_handleFileAdded`
unfoldable pub handle_file_added : World → FileEvent → Option ℕ → Engine → Engine
handle_file_added w msg known e =
    let path = identity_key w msg.relative_path in
    let entered = enter w path e in
    if not (is_accepted w path)
    then update_seq w msg.seq e
    else leave w path (apply_added w path msg known (lookup_tracked w path entered) entered)

-- The `try` block of `_handleFileReplaced`: it keeps the columns of the old row.
unfoldable pub apply_replaced : World → Text → FileEvent → Option Row → Engine → Engine
apply_replaced w path msg none e = fetch_event w path msg (blank path) none e
apply_replaced w path msg (some existing) e =
    if not (same existing.relative_path path)
    then reconcile_case_rename w existing path msg e
    else if same_value existing.local_checksum msg.checksum
    then update_seq w msg.seq (upsert (confirmed_row path msg existing) e)
    else fetch_event w path msg existing existing.server_checksum e

-- `_handleFileReplaced`
unfoldable pub handle_file_replaced : World → FileEvent → Engine → Engine
handle_file_replaced w msg e =
    let path = identity_key w msg.relative_path in
    let entered = enter w path e in
    if not (is_accepted w path)
    then update_seq w msg.seq e
    else leave w path (apply_replaced w path msg (lookup_tracked w path entered) entered)
