-- ===== src/Engine/Inbound/Fallback.antt =====
-- file_renamed, when the move fails: what the recovery by delete and download does to the old path.
use hermitstash_sync.Prelude.{
  ℕ, ◌≡◌, inl, inr, refl, sym, ap, subst, ◌∙◌, true, false, Option, none, some, arith,
  if◌then◌else◌, Bool-cases, or_else, same_value, Text, same, same_iff,
}
use hermitstash_sync.StateDb.Meta.{Db}
use hermitstash_sync.StateDb.Rows.{Row, blank, get_file_folded}
use hermitstash_sync.Engine.State.{
  Engine, World, on_disk, move_disk, put_disk, lookup_tracked, identity_key, Disk, upsert,
}
use hermitstash_sync.Engine.Suppress.{suppress, release}
use hermitstash_sync.Engine.Conflict.{maybe_save_conflict_copy, unlink_loop, unlink_with_retry}
use hermitstash_sync.Engine.Download.Laws.{download_path-IsLocal}
use hermitstash_sync.Engine.Inbound.Gate.{FileEvent, is_accepted, enter, leave}
use hermitstash_sync.Engine.Inbound.Frame.{disk-update_seq, disk-leave, disk-enter, files-enter}
use hermitstash_sync.Engine.Inbound.Fetch.{disk-fetch_event, queued}
use hermitstash_sync.Engine.Inbound.Added.{
  fetch_event, apply_added, handle_file_added, confirmed_row,
}
use hermitstash_sync.Engine.Inbound.AddedLaws.{IsNamed, lookup_tracked-IsNamed}
use hermitstash_sync.Engine.Inbound.Removed.{handle_file_removed_no_seq}
use hermitstash_sync.Engine.Inbound.Renamed.{
  threw, move_result, try_rename, enter_both, leave_both, rename_in_scope, at_path,
}
use hermitstash_sync.Engine.Inbound.RenamedLaws.{disk-leave_both, move_result-enter}

-- An entry of the disk that is neither the path's nor its conflict copy's.
pub record IsElsewhere (w : World) (path key : Text) : Type 0 where
  pub not_path : same (w.disk_key path) key ≡ false
  pub not_copy : same (w.disk_key (w.conflict_path path)) key ≡ false

module _ (w : World) (path key : Text) (msg : FileEvent) (apart : IsElsewhere w path key) where
  copy_elsewhere :
      (incoming known : Option ℕ) (e : Engine)
      → (maybe_save_conflict_copy w path incoming known e).disk key ≡ e.disk key
  unfolding maybe_save_conflict_copy move_disk
  copy_elsewhere incoming known e = ground (arith, apart.not_path, apart.not_copy)

  fetch_event_elsewhere :
      (base : Row) (known : Option ℕ) (e : Engine)
      → (fetch_event w path msg base known e).disk key ≡ e.disk key
  fetch_event_elsewhere base known e =
      ap (λ (d : Disk). d key) (disk-fetch_event w path msg base known e)
      ∙ (download_path-IsLocal w path msg.file_id msg.checksum msg.size
            (queued w path msg base known e)).other_files
          key apart.not_path
      ∙ copy_elsewhere msg.checksum known e

  apply_added_elsewhere :
      (known : Option ℕ) (existing : Option Row) (e : Engine)
      → IsNamed path existing
      → (apply_added w path msg known existing e).disk key ≡ e.disk key
  unfolding apply_added
  apply_added_elsewhere known none e named = fetch_event_elsewhere (blank path) known e
  apply_added_elsewhere known (some row) e named =
      elim (Bool-cases (same_value row.local_checksum msg.checksum)) [
        | inl synced ↦ rw named (
            rw synced (
              ap (λ (d : Disk). d key)
                (disk-update_seq w msg.seq (upsert (confirmed_row path msg row) e))))
        | inr stale ↦
            rw named
              (rw stale (fetch_event_elsewhere (blank path) (or_else known row.server_checksum) e))
      ]

module _ (w : World) (key : Text) (msg : FileEvent) (known : Option ℕ) (e : Engine) where
  abbrev at : Text
  at = identity_key w msg.relative_path

  abbrev tracked : Option Row
  tracked = lookup_tracked w at e

  abbrev applied : Engine
  applied = apply_added w at msg known tracked (enter w at e)

  tracked-enter : lookup_tracked w at (enter w at e) ≡ tracked
  tracked-enter =
      ap (λ (d : Db). get_file_folded w.nocase (identity_key w at) w.fs_case_folds d.files)
        (files-enter w at e)

  accepted : is_accepted w at ≡ true → handle_file_added w msg known e ≡ leave w at applied
  unfolding handle_file_added
  accepted ok = rw ok (rw tracked-enter refl)

  refused : is_accepted w at ≡ false → (handle_file_added w msg known e).disk ≡ e.disk
  unfolding handle_file_added
  refused no_entry = rw no_entry (disk-update_seq w msg.seq e)

  -- Where no other casing is tracked, a file_added touches nothing on the disk but its path and the
  -- conflict copy of it.
  handle_file_added_elsewhere :
      IsElsewhere w at key
      → IsNamed at tracked
      → (handle_file_added w msg known e).disk key ≡ e.disk key
  handle_file_added_elsewhere apart named = elim (Bool-cases (is_accepted w at)) [
    | inl ok ↦
        ap (λ (x : Engine). x.disk key) (accepted ok)
        ∙ ap (λ (d : Disk). d key) (disk-leave w at applied)
        ∙ apply_added_elsewhere w at key msg apart known tracked (enter w at e) named
        ∙ ap (λ (d : Disk). d key) (disk-enter w at e)
    | inr no_entry ↦ ap (λ (d : Disk). d key) (refused no_entry)
  ]

module _ (w : World) (old_path path : Text) (msg : FileEvent) (e : Engine) where
  abbrev left_over : Engine
  left_over = leave_both w old_path path (enter_both w old_path path e)

  abbrev purged : Engine
  purged = handle_file_removed_no_seq w old_path left_over

  after-eq :
      move_result w old_path path e ≡ threw
      → rename_in_scope w old_path path msg e ≡ handle_file_added w (at_path path msg) none purged
  unfolding rename_in_scope try_rename
  after-eq fails = rw (try_rename, move_result-enter w old_path path msg e ∙ fails) refl

  disk-left_over : left_over.disk ≡ e.disk
  unfolding suppress
  disk-left_over = disk-leave_both w old_path path (enter_both w old_path path e)

  disk-purged :
      (key : Text)
      → w.safe_path old_path ≡ true
      → unlink_loop w old_path 0 4 ≡ true
      → purged.disk key ≡ (if same (w.disk_key old_path) key then none else e.disk key)
  unfolding handle_file_removed_no_seq unlink_with_retry put_disk suppress release on_disk
  disk-purged key safe gone = ground (
    arith,
    same_iff (w.disk_key old_path) key,
    ap (λ (d : Disk). d key) disk-left_over,
    ap (λ (d : Disk). d (w.disk_key old_path)) disk-left_over,
  )

  untracked_casing :
      w.fs_case_folds ≡ false
      → identity_key w path ≡ path
      → IsNamed (identity_key w path) (lookup_tracked w (identity_key w path) purged)
  untracked_casing exact canonical =
      subst (λ (p : Text). IsNamed p (lookup_tracked w p purged)) (sym canonical)
        (lookup_tracked-IsNamed w path purged exact canonical)

  -- Where the move of a rename fails and the old file can be deleted, the file at the old path is
  -- gone, also one that holds an edit the server never had; no entry but that one, the new path's and
  -- its conflict copy's changes. (On a volume that does not fold case.)
  pub rename_in_scope_purges :
      w.fs_case_folds ≡ false
      → identity_key w path ≡ path
      → w.safe_path old_path ≡ true
      → move_result w old_path path e ≡ threw
      → unlink_loop w old_path 0 4 ≡ true
      → (key : Text) → IsElsewhere w path key
      → (rename_in_scope w old_path path msg e).disk key
        ≡ (if same (w.disk_key old_path) key then none else e.disk key)
  rename_in_scope_purges exact canonical safe fails gone key apart =
      ap (λ (x : Engine). x.disk key) (after-eq fails)
      ∙ handle_file_added_elsewhere w key (at_path path msg) none purged
          (subst (λ (p : Text). IsElsewhere w p key) (sym canonical) apart)
          (untracked_casing exact canonical)
      ∙ disk-purged key safe gone
