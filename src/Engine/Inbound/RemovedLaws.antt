-- ===== src/Engine/Inbound/RemovedLaws.antt =====
-- A remote delete never destroys bytes that were not synced, and the cursor passes it only when it
-- was honoured.
use hermitstash_sync.Prelude.{
  ℕ, ◌≡◌, ◌≢◌, ◌⊎◌, inl, inr, refl, ap, ◌∙◌, Bool, true, false, ◌&&◌, Option, none, some, arith,
  Bool-cases, is_some, same_value, Text, same, same_refl,
}
use hermitstash_sync.Transfer.{File}
use hermitstash_sync.StateDb.Meta.{Db, get_last_seq}
use hermitstash_sync.StateDb.Rows.{get_file_folded, Row, get_file}
use hermitstash_sync.StateDb.Laws.{get_file-remove_file}
use hermitstash_sync.Engine.State.{
  Engine, World, identity_key, on_disk, hash_of, move_disk, forget, put_disk, lookup_tracked,
  server_checksum_of,
}
use hermitstash_sync.Engine.Cursor.{last_seq}
use hermitstash_sync.Engine.Conflict.{unlink_with_retry}
use hermitstash_sync.Engine.Inbound.Gate.{is_accepted, enter, leave}
use hermitstash_sync.Engine.Inbound.Frame.{
  on_disk-cong, files-update_seq, disk-update_seq, disk-note, cursor-note, files-enter, disk-enter,
  files-leave, disk-leave, cursor-leave,
}
use hermitstash_sync.Engine.Inbound.Removed.{
  tracked_key, remove_from_disk, apply_removed, handle_file_removed,
}

module _ (w : World) (path : Text) (synced_checksum : Option ℕ) (e : Engine) where
  abbrev KeptAt : Engine → File → Type 0
  KeptAt e' file =
      (on_disk w e' path ≡ some file) ⊎ (on_disk w e' (w.conflict_path path) ≡ some file)

  remove_from_disk_keeps :
      (file : File)
      → on_disk w e path ≡ some file
      → same_value (hash_of (some file)) synced_checksum ≡ false
      → KeptAt (remove_from_disk w path synced_checksum e).1 file
  unfolding remove_from_disk move_disk on_disk
  remove_from_disk_keeps file there differs =
      elim (Bool-cases (is_some (hash_of (some file)) && w.rename_ok path (w.conflict_path path))) [
        | inl moved ↦ inr (ground (arith, same_refl (w.disk_key (w.conflict_path path))))
        | inr stays ↦ inl (ground arith)
      ]

  remove_from_disk_done :
      same (w.disk_key (w.conflict_path path)) (w.disk_key path) ≡ false
      → (remove_from_disk w path synced_checksum e).0 ≡ true
      → on_disk w (remove_from_disk w path synced_checksum e).1 path ≡ none
  unfolding remove_from_disk move_disk on_disk unlink_with_retry put_disk
  remove_from_disk_done apart done = ground (arith, same_refl (w.disk_key path))

  files-remove_from_disk : (remove_from_disk w path synced_checksum e).1.db ≡ e.db
  unfolding remove_from_disk move_disk unlink_with_retry put_disk
  files-remove_from_disk = ground arith

module _ (w : World) (relative_path : Text) (seq : ℕ) (e : Engine) where
  abbrev at : Text
  at = identity_key w relative_path

  abbrev tracked : Option Row
  tracked = lookup_tracked w at e

  abbrev after : Engine
  after = handle_file_removed w relative_path seq e

  abbrev removal : Bool × Engine
  removal = remove_from_disk w at (server_checksum_of tracked) (enter w at e)

  tracked-enter : lookup_tracked w at (enter w at e) ≡ tracked
  unfolding enter
  tracked-enter =
      ap (λ (d : Db). get_file_folded w.nocase (identity_key w at) w.fs_case_folds d.files)
        (files-enter w at e)

  after-eq :
      is_accepted w at ≡ true → after ≡ leave w at (apply_removed w at seq tracked (enter w at e))
  unfolding handle_file_removed
  after-eq ok = rw ok (rw tracked-enter refl)

  disk-apply_removed : (apply_removed w at seq tracked (enter w at e)).disk ≡ removal.1.disk
  unfolding apply_removed
  disk-apply_removed = ground (
    arith,
    disk-update_seq w seq (forget (tracked_key at tracked) removal.1),
    disk-note seq removal.1,
  )

  disk-after : is_accepted w at ≡ true → after.disk ≡ removal.1.disk
  disk-after ok =
      ap (λ (x : Engine). x.disk) (after-eq ok)
      ∙ disk-leave w at (apply_removed w at seq tracked (enter w at e))
      ∙ disk-apply_removed

  refused : is_accepted w at ≡ false → after.disk ≡ e.disk
  unfolding handle_file_removed
  refused no_entry = rw no_entry (disk-update_seq w seq e)

  -- Bytes that differ from what was last synced with the server, or that were never synced, and bytes
  -- that cannot be read, are still on the disk after a remote delete: in place, or as a conflict copy.
  pub handle_file_removed_keeps :
      (file : File)
      → on_disk w e at ≡ some file
      → same_value (hash_of (some file)) (server_checksum_of tracked) ≡ false
      → (on_disk w after at ≡ some file) ⊎ (on_disk w after (w.conflict_path at) ≡ some file)
  handle_file_removed_keeps file there differs = elim (Bool-cases (is_accepted w at)) [
    | inl ok ↦ ground (
      arith,
      remove_from_disk_keeps w at (server_checksum_of tracked) (enter w at e) file
          (on_disk-cong w at e (enter w at e) (disk-enter w at e) ∙ there) differs,
      on_disk-cong w at removal.1 after (disk-after ok),
      on_disk-cong w (w.conflict_path at) removal.1 after (disk-after ok),
    )
    | inr no_entry ↦ inl (on_disk-cong w at e after (refused no_entry) ∙ there)
  ]

  cursor-stuck : is_accepted w at ≡ true → removal.0 ≡ false → last_seq after ≡ last_seq e
  unfolding apply_removed
  cursor-stuck ok stuck =
      ap (λ (x : Engine). last_seq x) (after-eq ok)
      ∙ cursor-leave w at (apply_removed w at seq tracked (enter w at e))
      ∙ rw stuck (cursor-note seq removal.1)
      ∙ ap (λ (d : Db). get_last_seq d.sync_state)
          (files-remove_from_disk w at (server_checksum_of tracked) (enter w at e)
            ∙ files-enter w at e)

  row-gone :
      is_accepted w at ≡ true
      → removal.0 ≡ true
      → get_file (tracked_key at tracked) after.db.files ≡ none
  unfolding apply_removed
  row-gone ok done =
      let key = tracked_key at tracked in
      ap (λ (x : Engine). get_file key x.db.files) (after-eq ok)
      ∙ ap (get_file key) (files-leave w at (apply_removed w at seq tracked (enter w at e)))
      ∙ rw done (
          ap (get_file key) (files-update_seq w seq (forget key removal.1))
          ∙ get_file-remove_file key key removal.1.db.files
          ∙ rw same_refl refl)

  -- Where the conflict path has a name of its own, the cursor passes an accepted remote delete only
  -- when neither a file at the path nor the row that tracked it is left.
  pub handle_file_removed_honest :
      same (w.disk_key (w.conflict_path at)) (w.disk_key at) ≡ false
      → is_accepted w at ≡ true
      → last_seq after ≢ last_seq e
      → (on_disk w after at ≡ none) × (get_file (tracked_key at tracked) after.db.files ≡ none)
  handle_file_removed_honest apart ok moved = elim (Bool-cases removal.0) [
    | inl done ↦ (
      on_disk-cong w at removal.1 after (disk-after ok)
          ∙ remove_from_disk_done w at (server_checksum_of tracked) (enter w at e) apart done,
      row-gone ok done,
    )
    | inr stuck ↦ absurd (moved (cursor-stuck ok stuck))
  ]
