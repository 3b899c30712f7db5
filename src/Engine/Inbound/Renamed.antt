-- ===== src/Engine/Inbound/Renamed.antt =====
-- lib/sync-engine.js: file_renamed.
use hermitstash_sync.Prelude.{
  ℕ, ◌+◌, ◌-◌, Bool, true, false, not, ◌&&◌, ◌||◌, Option, none, some, ◌==◌, if◌then◌else◌, is_some,
  or_else, or_number, same_value, Text,
}
use hermitstash_sync.StateDb.Rows.{Row, blank, rename_file, synced, pending_upload}
use hermitstash_sync.Engine.State.{
  Engine, World, identity_key, on_disk, move_disk, set_files, lookup_tracked, server_checksum_of,
}
use hermitstash_sync.Engine.Suppress.{suppress, release}
use hermitstash_sync.Engine.Cursor.{update_seq, maybe_finish_catch_up}
use hermitstash_sync.Engine.Inbound.Gate.{FileEvent, valid_server_path, in_sync_scope}
use hermitstash_sync.Engine.Inbound.Added.{handle_file_added}
use hermitstash_sync.Engine.Inbound.Removed.{
  tracked_key, handle_file_removed, handle_file_removed_no_seq,
}

-- How the move of the file on the disk ends: made, not made for want of a source, or an error.
pub data Move : Type 0 where
  made not_there threw : Move

-- `mkdirSync` of the destination's directory and the rename.
unfoldable pub move_result : World → Text → Text → Engine → Move
move_result w old_path path e =
    if not (is_some (on_disk w e old_path))
    then not_there
    else if w.mkdir_ok path && w.rename_ok old_path path
    then made
    else threw

-- A local edit that the server does not have.
abbrev pub is_diverged : Option Row → Bool
is_diverged none = false
is_diverged (some row) = elim row.local_checksum [
  | none ↦ false
  | some l ↦ elim row.server_checksum [ none ↦ false | some s ↦ not (l == s) ]
]

abbrev pub row_or : Text → Option Row → Row
row_or path none = blank path
row_or path (some row) = row

-- `checksum || existing.checksum`, or the row's own digests for a diverged file.
abbrev pub renamed_row : World → Text → FileEvent → Option Row → Row
renamed_row w path msg existing =
    let old = row_or path existing in
    let diverged = is_diverged existing in
    record {
      relative_path = path;
      server_file_id = or_else msg.file_id old.server_file_id;
      local_checksum =
          if diverged then old.local_checksum else or_else msg.checksum old.local_checksum;
      server_checksum =
          if diverged then old.server_checksum else or_else msg.checksum old.server_checksum;
      local_mtime = some w.now_ms;
      size = or_number msg.size old.size;
      server_seq = msg.seq;
      status = if diverged then pending_upload else synced;
      needs_bytes = 0;
    }

-- `!checksum || movedChecksum === checksum`
abbrev pub bytes_agree : Option ℕ → Option ℕ → Bool
bytes_agree none moved = true
bytes_agree (some c) moved = same_value moved (some c)

-- The `try` block: whether the rename landed, and the last-synced digest of what was moved, if the
-- block came that far.
unfoldable pub try_rename : World → Text → Text → FileEvent → Engine → Bool × Option ℕ × Engine
try_rename w old_path path msg e = elim (move_result w old_path path e) [
  | threw ↦ (false, none, e)
  | not_there ↦ (false, server_checksum_of (lookup_tracked w old_path e), e)
  | made ↦
      let e' = move_disk w old_path path e in
      let existing = lookup_tracked w old_path e' in
      if bytes_agree msg.checksum (server_checksum_of existing)
      then (
        true,
        server_checksum_of existing,
        set_files
            (rename_file (tracked_key old_path existing) (renamed_row w path msg existing)
              e'.db.files).0
            e',
      )
      else (false, server_checksum_of existing, e')
]

abbrev pub enter_both : World → Text → Text → Engine → Engine
enter_both w old_path path e =
    suppress w path (suppress w old_path (record e { catch_up_pending = e.catch_up_pending + 1 }))

abbrev pub leave_both : World → Text → Text → Engine → Engine
leave_both w old_path path e =
    let e' = release w path (release w old_path e) in
    maybe_finish_catch_up w (record e' { catch_up_pending = e'.catch_up_pending - 1 })

-- The event as `_handleFileAdded` is given it.
abbrev pub at_path : Text → FileEvent → FileEvent
at_path path msg = record msg { relative_path = path }

-- Both names in scope: the rename, and the recovery by delete and download where it did not land.
unfoldable pub rename_in_scope : World → Text → Text → FileEvent → Engine → Engine
rename_in_scope w old_path path msg e =
    let (done, moved, e') = try_rename w old_path path msg (enter_both w old_path path e) in
    let left = leave_both w old_path path e' in
    if done
    then update_seq w msg.seq left
    else handle_file_added w (at_path path msg) moved (handle_file_removed_no_seq w old_path left)

-- `_handleFileRenamed`
unfoldable pub handle_file_renamed : World → Text → FileEvent → Engine → Engine
handle_file_renamed w old_relative_path msg e =
    let old_path = identity_key w old_relative_path in
    let path = identity_key w msg.relative_path in
    if not (w.safe_path old_path) || not (w.safe_path path)
    then update_seq w msg.seq e
    else if not (valid_server_path w old_path && valid_server_path w path)
    then update_seq w msg.seq e
    else if in_sync_scope w old_path
    then (if in_sync_scope w path
        then rename_in_scope w old_path path msg e
        else handle_file_removed w old_path msg.seq e)
    else if in_sync_scope w path
    then handle_file_added w (at_path path msg) none e
    else update_seq w msg.seq e
