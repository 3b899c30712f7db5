-- ===== src/Engine/Inbound/RenamedLaws.antt =====
-- file_renamed, when the move on the disk lands: the file and its row end up under the new name.
use hermitstash_sync.Prelude.{
  ◌-◌, ◌≡◌, inl, inr, refl, ap, ◌∙◌, true, false, Option, none, some, arith, if◌then◌else◌, Text,
  same, is_empty,
}
use hermitstash_sync.StateDb.Rows.{Row, Files, get_file, rename_file}
use hermitstash_sync.StateDb.Unique.{rename_file_atomic}
use hermitstash_sync.Engine.State.{
  Engine, World, on_disk, move_disk, lookup_tracked, server_checksum_of, set_files, Disk,
}
use hermitstash_sync.Engine.Suppress.{suppress, release}
use hermitstash_sync.Engine.Cursor.{update_seq}
use hermitstash_sync.Engine.Download.Frame.{maybe_finish_catch_up-IsFramed}
use hermitstash_sync.Engine.Inbound.Gate.{FileEvent}
use hermitstash_sync.Engine.Inbound.Frame.{disk-update_seq, files-update_seq}
use hermitstash_sync.Engine.Inbound.Removed.{tracked_key}
use hermitstash_sync.Engine.Inbound.Renamed.{
  made, move_result, bytes_agree, renamed_row, try_rename, enter_both, leave_both, rename_in_scope,
}

module _ (w : World) (old_path path : Text) (e : Engine) where
  released : Engine
  released =
      let x = release w path (release w old_path e) in
      record x { catch_up_pending = x.catch_up_pending - 1 }

  files-leave_both : (leave_both w old_path path e).db.files ≡ e.db.files
  unfolding release released
  files-leave_both = (maybe_finish_catch_up-IsFramed w released).files

  pub disk-leave_both : (leave_both w old_path path e).disk ≡ e.disk
  unfolding release released
  disk-leave_both = (maybe_finish_catch_up-IsFramed w released).disk

module _ (w : World) (old_path path : Text) (msg : FileEvent) (e : Engine) where
  abbrev tracked : Option Row
  tracked = lookup_tracked w old_path e

  abbrev old_key : Text
  old_key = tracked_key old_path tracked

  abbrev renamed : Files
  renamed = (rename_file old_key (renamed_row w path msg tracked) e.db.files).0

  abbrev moved : Engine
  moved = set_files renamed (move_disk w old_path path (enter_both w old_path path e))

  abbrev after : Engine
  after = rename_in_scope w old_path path msg e

  pub move_result-enter :
      move_result w old_path path (enter_both w old_path path e) ≡ move_result w old_path path e
  unfolding move_result on_disk suppress
  move_result-enter = refl

  try_rename-eq :
      move_result w old_path path e ≡ made
      → bytes_agree msg.checksum (server_checksum_of tracked) ≡ true
      → try_rename w old_path path msg (enter_both w old_path path e)
        ≡ (true, server_checksum_of tracked, moved)
  unfolding try_rename suppress move_disk
  try_rename-eq lands agrees = rw (try_rename, move_result-enter ∙ lands) (rw agrees refl)

  after-eq :
      move_result w old_path path e ≡ made
      → bytes_agree msg.checksum (server_checksum_of tracked) ≡ true
      → after ≡ update_seq w msg.seq (leave_both w old_path path moved)
  unfolding rename_in_scope
  after-eq lands agrees = rw (try_rename-eq lands agrees) refl

  -- A rename whose move lands and whose digest is absent or the last synced one carries the file to
  -- the new name, whatever edit it holds and in place of what was there, and its row with it: nothing
  -- is left of the old name, and every other entry of the disk and every other row is as it was.
  pub rename_in_scope_lands :
      is_empty path ≡ false
      → move_result w old_path path e ≡ made
      → bytes_agree msg.checksum (server_checksum_of tracked) ≡ true
      → ((key : Text)
          → after.disk key ≡ (
              if same (w.disk_key path) key
              then on_disk w e old_path
              else if same (w.disk_key old_path) key
              then none
              else e.disk key))
        × ((name : Text)
            → get_file name after.db.files ≡ (
                if same path name
                then some (renamed_row w path msg tracked)
                else if same old_key name
                then none
                else get_file name e.db.files))
  unfolding move_disk on_disk suppress
  rename_in_scope_lands named lands agrees = (
    λ key.
        ap (λ (d : Disk). d key)
          (ap (λ (x : Engine). x.disk) (after-eq lands agrees)
            ∙ disk-update_seq w msg.seq (leave_both w old_path path moved)
            ∙ disk-leave_both w old_path path moved),
    λ name.
        ap (get_file name) (
          ap (λ (x : Engine). x.db.files) (after-eq lands agrees)
          ∙ files-update_seq w msg.seq (leave_both w old_path path moved)
          ∙ files-leave_both w old_path path moved)
        ∙ row_at name,
  )
    where
      row_at :
          (name : Text)
          → get_file name renamed ≡ (
              if same path name
              then some (renamed_row w path msg tracked)
              else if same old_key name
              then none
              else get_file name e.db.files)
      row_at name = elim (rename_file_atomic old_key (renamed_row w path msg tracked) e.db.files) [
        | inl (bare, threw, same_files) ↦ ground arith
        | inr (ok, kept, rows) ↦ rows name
      ]
