-- ===== src/Engine/Local/Modify.antt =====
-- lib/sync-engine.js: _onLocalChange, _handleLocalModify and its locked body.
use hermitstash_sync.Prelude.{
  ℕ, ◌-◌, zero, suc, ◌+◌, Bool, true, false, not, ◌||◌, Option, none, some, if◌then◌else◌,
  same_value, length, Text,
}
use hermitstash_sync.StateDb.Rows.{Row, blank, pending_upload}
use hermitstash_sync.Transfer.{File}
use hermitstash_sync.Engine.State.{
  Engine, World, Pending, SyncState, error, identity_key, on_disk, hash_of, lookup_tracked, upsert,
  is_disconnected,
}
use hermitstash_sync.Engine.Suppress.{is_suppressed}
use hermitstash_sync.Engine.Local.Delete.{drop_pending, handle_local_delete}
use hermitstash_sync.Engine.Local.Rename.{rename_source, rename_step}
use hermitstash_sync.Engine.Cursor.{maybe_mark_synced}
use hermitstash_sync.Engine.Local.Upload.{upload_file, begin_upload}

-- The fields of a watcher's change; `size` is `none` when the watcher gives no finite number.
pub record Change : Type 0 where
  pub size : Option ℕ
  pub mtime : Option ℕ

-- The size of the event, or else the one on the disk.
abbrev pub size_of : Change → Option File → ℕ
size_of change file = elim change.size [
  | some n ↦ n
  | none ↦ elim file [ some f ↦ f.bytes | none ↦ 0 ]
]

abbrev pub queued_row : Text → ℕ → ℕ → Option ℕ → Option Row → Row
queued_row path checksum size mtime existing =
    let old : Row = elim existing [ some row ↦ row | none ↦ blank path ] in
    record (blank path) {
      server_file_id = old.server_file_id;
      local_checksum = some checksum;
      server_checksum = old.server_checksum;
      local_mtime = mtime;
      size = some size;
      server_seq = old.server_seq;
      status = pending_upload;
    }

abbrev pub is_down : Engine → Bool
is_down e = e.stopped || e.resyncing || not e.has_http

abbrev pub is_unchanged : ℕ → Option Row → Bool
is_unchanged checksum none = false
is_unchanged checksum (some row) = same_value row.local_checksum (some checksum)

-- The row that marks the change, and its upload, which the pool runs at once here.
unfoldable pub queue_upload : World → Text → ℕ → ℕ → Option ℕ → Engine → Engine
queue_upload w path checksum size mtime e =
    upload_file w path (some checksum)
      (upsert (queued_row path checksum size mtime (lookup_tracked w path e)) e)

-- The `finally` of `_handleLocalRename`, which runs outside the pool.
abbrev pub end_rename : World → Engine → Engine
end_rename w e = maybe_mark_synced w.pool_busy (record e { active_ops = e.active_ops - 1 })

-- The locked body after the file was hashed. `source` is the buffered delete that the file claims, if
-- there is one, and `redo` the body itself, which `_handleLocalRename` calls for the renamed file when
-- the server does not rename.
unfoldable pub modify_hashed :
    World → Text → Change → ℕ → Option (Text × Pending) → (Engine → Engine) → Engine → Engine
modify_hashed w path change checksum none redo e =
    let size = size_of change (on_disk w e path) in
    let freed = record e { pending_deletes = drop_pending path e.pending_deletes } in
    if is_down e || is_suppressed w path e
    then e
    else if is_unchanged checksum (lookup_tracked w path e)
    then freed
    else queue_upload w path checksum size change.mtime freed
modify_hashed w path change checksum (some (old, pending)) redo e =
    let size = size_of change (on_disk w e path) in
    let freed = record e { pending_deletes = drop_pending path e.pending_deletes } in
    let claimed = record freed { pending_deletes = drop_pending old freed.pending_deletes } in
    let (again, e') =
      rename_step w old path pending checksum size change.mtime (begin_upload claimed) in
    let redone = redo e' in
    if is_down e || is_suppressed w path e
    then e
    else if is_unchanged checksum (lookup_tracked w path e)
    then freed
    else end_rename w (if again then redone else e')

abbrev pub source_of : World → Text → Change → ℕ → Engine → Option (Text × Pending)
source_of w path change checksum e =
    rename_source path checksum (size_of change (on_disk w e path))
      (drop_pending path e.pending_deletes)

-- `_handleLocalModifyLocked`. Each call of itself has used up one buffered delete, so that the number
-- of these, and one more, is fuel enough.
unfoldable pub modify_locked : ℕ → World → Text → Change → Engine → Engine
modify_locked zero w path change e = e
modify_locked (suc n) w path change e = elim (hash_of (on_disk w e path)) [
  | none ↦ e
  | some checksum ↦
      modify_hashed w path change checksum (source_of w path change checksum e)
        (modify_locked n w path change) e
]

-- `_handleLocalModify`
unfoldable pub handle_local_modify : World → Text → Change → Engine → Engine
handle_local_modify w relative_path change e =
    if is_disconnected e.state || is_down e
    then e
    else modify_locked (length e.pending_deletes + 1) w (identity_key w relative_path) change e

-- A change that the watcher saw: a delete, or a file that is new or changed.
pub data LocalEvent : Type 0 where
  removed : LocalEvent
  changed : Change → LocalEvent

abbrev is_error : SyncState → Bool
is_error error = true
is_error _ = false

-- `_onLocalChange`
unfoldable pub on_local_change : World → Text → LocalEvent → Engine → Engine
on_local_change w path removed e =
    if is_disconnected e.state || is_error e.state || is_suppressed w path e
    then e
    else handle_local_delete w path e
on_local_change w path (changed change) e =
    if is_disconnected e.state || is_error e.state || is_suppressed w path e
    then e
    else handle_local_modify w path change e
