-- ===== src/Engine/Inbound/Forward.antt =====
-- Every server event moves the cursor forward only, and at most to its own number.
pub mod Events
use hermitstash_sync.Prelude.{
  ℕ, zero, suc, ◌+◌, ◌-◌, ◌*◌, ◌≤◌, ◌<◌, min, max, ◌≡◌, ◌≢◌, ◌↔◌, ◌⊎◌, inl, inr, refl, sym, ap,
  subst, ◌∙◌, Bool, true, false, not, ◌&&◌, ◌||◌, Option, none, some, List, [], ◌∷◌, ◌++◌, map,
  arith, ltb, leb, ◌==◌, ==_iff, if◌then◌else◌, Bool-cases, Option-cases, is_some, or_else,
  or_number, same_value, length, any, keep_if, All, Text, codes, same, same_iff, same_refl,
  is_empty, includes,
}
use hermitstash_sync.StateDb.Rows.{Row, blank, Files}
use hermitstash_sync.StateDb.Meta.{Db, get_last_seq}
use hermitstash_sync.Engine.State.{
  Engine, World, identity_key, server_checksum_of, set_files, put_disk, move_disk, upsert,
}
use hermitstash_sync.Engine.Suppress.{suppress, release}
use hermitstash_sync.Engine.Cursor.{
  last_seq, update_seq, note_unapplied_seq, handle_heartbeat, note_tip, maybe_finish_catch_up,
}
use hermitstash_sync.Engine.Cursor.Gap.{update_seq_monotone}
use hermitstash_sync.Engine.Conflict.{maybe_save_conflict_copy, unlink_with_retry}
use hermitstash_sync.Engine.Download.{download_path}
use hermitstash_sync.Engine.Download.Laws.{download_path-IsLocal}
use hermitstash_sync.Engine.Download.Frame.{maybe_finish_catch_up-IsFramed}
use hermitstash_sync.Engine.Inbound.{
  Message, file_added, file_replaced, file_removed, file_renamed, heartbeat, other, dispatch,
  apply_server_message,
}
use hermitstash_sync.Engine.Inbound.Gate.{
  FileEvent, in_sync_scope, valid_server_path, enter, leave, advance_if,
}
use hermitstash_sync.Engine.Inbound.Frame.{cursor-note, cursor-leave, files-enter}
use hermitstash_sync.Engine.Inbound.Fetch.{db-conflict_copy}
use hermitstash_sync.Engine.Inbound.Added.{
  fetch_event, apply_added, handle_file_added, apply_replaced, handle_file_replaced, recase_disk,
  recase_row, reconcile_case_rename, confirmed_row, pending_row,
}
use hermitstash_sync.Engine.Inbound.Removed.{
  remove_from_disk, apply_removed, handle_file_removed, handle_file_removed_no_seq,
}
use hermitstash_sync.Engine.Inbound.Renamed.{
  try_rename, rename_in_scope, handle_file_renamed, at_path, enter_both, leave_both,
}

-- The cursor does not fall, and does not pass both where it was and `seq`.
pub record IsForward (seq : ℕ) (e e' : Engine) : Type 0 where
  pub rises : last_seq e ≤ last_seq e'
  pub bounded : last_seq e' ≤ max (last_seq e) seq

-- The number that a message carries.
abbrev pub seq_of : Message → ℕ
seq_of (file_added msg) = msg.seq
seq_of (file_replaced msg) = msg.seq
seq_of (file_removed path seq) = seq
seq_of (file_renamed old_path msg) = msg.seq
seq_of (heartbeat seq) = seq
seq_of other = 0

still-IsForward : (seq : ℕ) (e e' : Engine) → last_seq e' ≡ last_seq e → IsForward seq e e'
still-IsForward seq e e' h = record { rises = ground (arith, h); bounded = ground (arith, h) }

IsForward-trans :
    {seq : ℕ} {e e' e'' : Engine} → IsForward seq e e' → IsForward seq e' e'' → IsForward seq e e''
IsForward-trans a b = record {
  rises = ground (arith, a.rises, b.rises);
  bounded = ground (arith, a.bounded, b.bounded);
}

module _ (w : World) (seq : ℕ) where
  update_seq-IsForward : (e : Engine) → IsForward seq e (update_seq w seq e)
  unfolding update_seq
  update_seq-IsForward e = elim (Bool-cases e.resyncing) [
    | inl wiped ↦ still-IsForward seq e (update_seq w seq e) (rw wiped refl)
    | inr live ↦
        let (rises, bounded, socket) = update_seq_monotone w seq e live in
        record { rises = rises; bounded = bounded }
  ]

  note-IsForward : (e : Engine) → IsForward seq e (note_unapplied_seq seq e)
  note-IsForward e = still-IsForward seq e (note_unapplied_seq seq e) (cursor-note seq e)

  advance_if-IsForward : (r : Bool × Engine) → IsForward seq r.1 (advance_if w seq r)
  advance_if-IsForward (true, e) = update_seq-IsForward e
  advance_if-IsForward (false, e) = still-IsForward seq e e refl

  if-IsForward :
      (t : Bool) (e x y : Engine)
      → IsForward seq e x
      → IsForward seq e y
      → IsForward seq e (if t then x else y)
  if-IsForward true e x y a b = a
  if-IsForward false e x y a b = b

  set_files-IsForward : (files : Files) (e : Engine) → IsForward seq e (set_files files e)
  set_files-IsForward files e = still-IsForward seq e (set_files files e) refl

  confirm-IsForward : (row : Row) (e : Engine) → IsForward seq e (update_seq w seq (upsert row e))
  confirm-IsForward row e =
      IsForward-trans (set_files-IsForward _ e) (update_seq-IsForward (upsert row e))

  -- A copy, and a download with the move of the cursor that it earns.
  copied_download-IsForward :
      (path : Text) (file_id checksum size known : Option ℕ) (base : Engine → Engine) (e : Engine)
      → last_seq (base (maybe_save_conflict_copy w path checksum known e)) ≡ last_seq e
      → IsForward seq e (
          advance_if w seq (
            download_path w path file_id checksum size
              (base (maybe_save_conflict_copy w path checksum known e))))
  copied_download-IsForward path file_id checksum size known base e h =
      let copied = base (maybe_save_conflict_copy w path checksum known e) in
      IsForward-trans (still-IsForward seq e copied h) (
        IsForward-trans
          (still-IsForward seq copied (download_path w path file_id checksum size copied).1
            (download_path-IsLocal w path file_id checksum size copied).cursor)
          (advance_if-IsForward _))

  cursor-copy :
      (path : Text) (incoming known : Option ℕ) (e : Engine)
      → last_seq (maybe_save_conflict_copy w path incoming known e) ≡ last_seq e
  cursor-copy path incoming known e =
      ap (λ (d : Db). get_last_seq d.sync_state) (db-conflict_copy w path incoming known e)

  remove_from_disk-IsForward :
      (path : Text) (known : Option ℕ) (e : Engine)
      → IsForward seq e (remove_from_disk w path known e).1
  unfolding remove_from_disk move_disk unlink_with_retry put_disk
  remove_from_disk-IsForward path known e = still-IsForward seq e _ (ground arith)

  apply_removed-IsForward :
      (path : Text) (existing : Option Row) (e : Engine)
      → IsForward seq e (apply_removed w path seq existing e)
  unfolding apply_removed
  apply_removed-IsForward path existing e =
      let d = remove_from_disk-IsForward path (server_checksum_of existing) e in
      if-IsForward _ e _ _
        (IsForward-trans d (IsForward-trans (set_files-IsForward _ _) (update_seq-IsForward _)))
        (IsForward-trans d (note-IsForward _))

  bracket-IsForward :
      (path : Text) (e e' : Engine)
      → IsForward seq (enter w path e) e'
      → IsForward seq e (leave w path e')
  bracket-IsForward path e e' f =
      IsForward-trans
        (still-IsForward seq e (enter w path e)
          (ap (λ (d : Db). get_last_seq d.sync_state) (files-enter w path e)))
        (IsForward-trans f (still-IsForward seq e' (leave w path e') (cursor-leave w path e')))

  handle_file_removed-IsForward :
      (path : Text) (e : Engine) → IsForward seq e (handle_file_removed w path seq e)
  unfolding handle_file_removed
  handle_file_removed-IsForward path e =
      if-IsForward _ e _ _ (update_seq-IsForward e)
        (bracket-IsForward (identity_key w path) e _ (apply_removed-IsForward _ _ _))

  removed_no_seq-IsForward :
      (path : Text) (e : Engine) → IsForward seq e (handle_file_removed_no_seq w path e)
  unfolding handle_file_removed_no_seq unlink_with_retry put_disk suppress release
  removed_no_seq-IsForward path e = still-IsForward seq e _ (ground arith)

  handle_heartbeat-IsForward : (n : ℕ) (e : Engine) → IsForward seq e (handle_heartbeat w n e)
  unfolding handle_heartbeat
  handle_heartbeat-IsForward n e =
      still-IsForward seq e _
        (ground (arith, (maybe_finish_catch_up-IsFramed w (note_tip n e)).cursor))
