-- ===== src/Engine/Inbound/Removed.antt =====
-- lib/sync-engine.js: file_removed, and the removal that leaves the cursor alone.
use hermitstash_sync.Prelude.{
  ℕ, Bool, true, false, not, Option, none, some, if◌then◌else◌, is_some, same_value, Text,
}
use hermitstash_sync.StateDb.Rows.{Row}
use hermitstash_sync.Engine.State.{
  Engine, World, identity_key, on_disk, hash_of, move_disk, forget, lookup_tracked,
  server_checksum_of,
}
use hermitstash_sync.Engine.Suppress.{suppress, release}
use hermitstash_sync.Engine.Cursor.{update_seq, note_unapplied_seq}
use hermitstash_sync.Engine.Conflict.{unlink_with_retry}
use hermitstash_sync.Engine.Inbound.Gate.{is_accepted, enter, leave}

-- The key under which a path is tracked.
abbrev pub tracked_key : Text → Option Row → Text
tracked_key path none = path
tracked_key path (some row) = row.relative_path

-- What a remote delete does to the file on the disk: whether it was honoured. Only bytes that are
-- what was synced are deleted; others are kept as a conflict copy, and a file that cannot be
-- hashed is kept where it is.
unfoldable pub remove_from_disk : World → Text → Option ℕ → Engine → Bool × Engine
remove_from_disk w path synced_checksum e = elim (on_disk w e path) [
  | none ↦ (true, e)
  | some file ↦
      let actual = hash_of (some file) in
      if same_value actual synced_checksum
      then unlink_with_retry w path e
      else if is_some actual
      then (if w.rename_ok path (w.conflict_path path)
          then (true, move_disk w path (w.conflict_path path) e)
          else (false, e))
      else (false, e)
]

-- The `try` block of `_handleFileRemoved`.
unfoldable pub apply_removed : World → Text → ℕ → Option Row → Engine → Engine
apply_removed w path seq existing e =
    let (done, e') = remove_from_disk w path (server_checksum_of existing) e in
    if done
    then update_seq w seq (forget (tracked_key path existing) e')
    else note_unapplied_seq seq e'

-- `_handleFileRemoved`
unfoldable pub handle_file_removed : World → Text → ℕ → Engine → Engine
handle_file_removed w relative_path seq e =
    let path = identity_key w relative_path in
    let entered = enter w path e in
    if not (is_accepted w path)
    then update_seq w seq e
    else leave w path (apply_removed w path seq (lookup_tracked w path entered) entered)

abbrev pub unlink_if_there : World → Text → Engine → Engine
unlink_if_there w path e = if is_some (on_disk w e path) then (unlink_with_retry w path e).1 else e

-- `_handleFileRemovedNoSeq`
unfoldable pub handle_file_removed_no_seq : World → Text → Engine → Engine
handle_file_removed_no_seq w path e =
    let e' = unlink_if_there w path (suppress w path e) in
    if not (w.safe_path path)
    then e
    else release w path (forget (tracked_key path (lookup_tracked w path e')) e')
