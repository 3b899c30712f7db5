-- ===== src/Engine/Inbound/Delivery.antt =====
-- The handlers of file_added and file_replaced: what was not synced survives, and the cursor is honest.
use hermitstash_sync.Prelude.{
  ◌≡◌, ◌≢◌, inl, inr, refl, sym, ap, subst, ◌∙◌, true, false, Option, none, some, Bool-cases,
  same_value, Text,
}
use hermitstash_sync.Transfer.{File}
use hermitstash_sync.StateDb.Meta.{Db, get_last_seq}
use hermitstash_sync.StateDb.Rows.{Row, get_file_folded}
use hermitstash_sync.Engine.State.{
  Engine, World, identity_key, on_disk, hash_of, lookup_tracked, server_checksum_of,
}
use hermitstash_sync.Engine.Cursor.{last_seq}
use hermitstash_sync.Engine.Inbound.Gate.{FileEvent, is_accepted, enter, leave}
use hermitstash_sync.Engine.Inbound.Frame.{
  on_disk-cong, disk-update_seq, files-enter, disk-enter, files-leave, disk-leave, cursor-leave,
}
use hermitstash_sync.Engine.Inbound.Fetch.{IsConfirmed}
use hermitstash_sync.Engine.Inbound.Added.{
  apply_added, handle_file_added, apply_replaced, handle_file_replaced,
}
use hermitstash_sync.Engine.Inbound.AddedLaws.{
  IsNamed, IsKept, CanCopy, apply_added_keeps, apply_replaced_keeps, apply_added_honest,
  apply_replaced_honest,
}

IsKept-cong :
    (w : World) (path : Text) (file : File) (e e' : Engine)
    → e'.disk ≡ e.disk
    → IsKept w path file e
    → IsKept w path file e'
IsKept-cong w path file e e' h kept = elim kept [
  | inl there ↦ inl (on_disk-cong w path e e' h ∙ there)
  | inr copied ↦ inr (on_disk-cong w (w.conflict_path path) e e' h ∙ copied)
]

module _ (w : World) (msg : FileEvent) (e : Engine) where
  abbrev pub at : Text
  at = identity_key w msg.relative_path

  abbrev pub tracked : Option Row
  tracked = lookup_tracked w at e

  tracked-enter : lookup_tracked w at (enter w at e) ≡ tracked
  tracked-enter =
      ap (λ (d : Db). get_file_folded w.nocase (identity_key w at) w.fs_case_folds d.files)
        (files-enter w at e)

  abbrev pub applied_added : Engine
  applied_added = apply_added w at msg none tracked (enter w at e)

  abbrev pub after_added : Engine
  after_added = handle_file_added w msg none e

  pub after_added-eq : is_accepted w at ≡ true → after_added ≡ leave w at applied_added
  unfolding handle_file_added
  after_added-eq ok = rw ok (rw tracked-enter refl)

  refused_added : is_accepted w at ≡ false → after_added.disk ≡ e.disk
  unfolding handle_file_added
  refused_added no_entry = rw no_entry (disk-update_seq w msg.seq e)

  -- After file_added, bytes at its path that are neither the event's nor the last synced ones are
  -- still there, or are the conflict copy, where a copy can be made and no other casing is tracked.
  pub handle_file_added_keeps :
      (file : File)
      → CanCopy w at
      → IsNamed at tracked
      → on_disk w e at ≡ some file
      → same_value (hash_of (some file)) msg.checksum ≡ false
      → same_value (hash_of (some file)) (server_checksum_of tracked) ≡ false
      → IsKept w at file after_added
  handle_file_added_keeps file can named there differs unsynced =
      elim (Bool-cases (is_accepted w at)) [
        | inl ok ↦
            IsKept-cong w at file applied_added after_added
              (ap (λ (x : Engine). x.disk) (after_added-eq ok) ∙ disk-leave w at applied_added)
              (apply_added_keeps w at msg (enter w at e) tracked file can named
                (on_disk-cong w at e (enter w at e) (disk-enter w at e) ∙ there) differs unsynced)
        | inr no_entry ↦ inl (on_disk-cong w at e after_added (refused_added no_entry) ∙ there)
      ]

  -- Where no other casing is tracked, an accepted file_added moves the cursor only with a row under
  -- its path whose local and server digests are the event's.
  pub handle_file_added_honest :
      is_accepted w at ≡ true
      → IsNamed at tracked
      → last_seq after_added ≢ last_seq e
      → IsConfirmed at msg after_added.db.files
  handle_file_added_honest ok named moved =
      let left : after_added.db.files ≡ applied_added.db.files =
        ap (λ (x : Engine). x.db.files) (after_added-eq ok) ∙ files-leave w at applied_added in
      let cursor : last_seq after_added ≡ last_seq applied_added =
        ap (λ (x : Engine). last_seq x) (after_added-eq ok) ∙ cursor-leave w at applied_added in
      let entered : last_seq (enter w at e) ≡ last_seq e =
        ap (λ (d : Db). get_last_seq d.sync_state) (files-enter w at e) in
      subst (IsConfirmed at msg) (sym left) (
        apply_added_honest w at msg (enter w at e) tracked named
          (λ still. moved (cursor ∙ still ∙ entered)))

  abbrev pub applied_replaced : Engine
  applied_replaced = apply_replaced w at msg tracked (enter w at e)

  abbrev pub after_replaced : Engine
  after_replaced = handle_file_replaced w msg e

  pub after_replaced-eq : is_accepted w at ≡ true → after_replaced ≡ leave w at applied_replaced
  unfolding handle_file_replaced
  after_replaced-eq ok = rw ok (rw tracked-enter refl)

  refused_replaced : is_accepted w at ≡ false → after_replaced.disk ≡ e.disk
  unfolding handle_file_replaced
  refused_replaced no_entry = rw no_entry (disk-update_seq w msg.seq e)

  -- After file_replaced, bytes at its path that are neither the event's nor the last synced ones are
  -- still there, or are the conflict copy, where a copy can be made and no other casing is tracked.
  pub handle_file_replaced_keeps :
      (file : File)
      → CanCopy w at
      → IsNamed at tracked
      → on_disk w e at ≡ some file
      → same_value (hash_of (some file)) msg.checksum ≡ false
      → same_value (hash_of (some file)) (server_checksum_of tracked) ≡ false
      → IsKept w at file after_replaced
  handle_file_replaced_keeps file can named there differs unsynced =
      elim (Bool-cases (is_accepted w at)) [
        | inl ok ↦
            IsKept-cong w at file applied_replaced after_replaced
              (ap (λ (x : Engine). x.disk) (after_replaced-eq ok)
                ∙ disk-leave w at applied_replaced)
              (apply_replaced_keeps w at msg (enter w at e) tracked file can named
                (on_disk-cong w at e (enter w at e) (disk-enter w at e) ∙ there) differs unsynced)
        | inr no_entry ↦
            inl (on_disk-cong w at e after_replaced (refused_replaced no_entry) ∙ there)
      ]

  -- Where no other casing is tracked, an accepted file_replaced moves the cursor only with a row
  -- under its path whose local and server digests are the event's.
  handle_file_replaced_honest :
      is_accepted w at ≡ true
      → IsNamed at tracked
      → last_seq after_replaced ≢ last_seq e
      → IsConfirmed at msg after_replaced.db.files
  handle_file_replaced_honest ok named moved =
      let left : after_replaced.db.files ≡ applied_replaced.db.files =
        ap (λ (x : Engine). x.db.files) (after_replaced-eq ok)
        ∙ files-leave w at applied_replaced in
      let cursor : last_seq after_replaced ≡ last_seq applied_replaced =
        ap (λ (x : Engine). last_seq x) (after_replaced-eq ok)
        ∙ cursor-leave w at applied_replaced in
      let entered : last_seq (enter w at e) ≡ last_seq e =
        ap (λ (d : Db). get_last_seq d.sync_state) (files-enter w at e) in
      subst (IsConfirmed at msg) (sym left) (
        apply_replaced_honest w at msg (enter w at e) tracked named
          (λ still. moved (cursor ∙ still ∙ entered)))
