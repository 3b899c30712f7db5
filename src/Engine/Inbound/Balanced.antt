-- ===== src/Engine/Inbound/Balanced.antt =====
-- Every server event gives back what it took: the paths it suppressed and its count as pending work.
pub mod Events
use hermitstash_sync.Prelude.{
  ℕ, ◌-◌, ◌≡◌, refl, ap, ◌∙◌, Bool, true, false, not, ◌&&◌, ◌||◌, Option, none, some, arith,
  if◌then◌else◌, or_else, Text,
}
use hermitstash_sync.StateDb.Rows.{Row, blank, Files}
use hermitstash_sync.Engine.State.{
  Engine, World, identity_key, server_checksum_of, set_files, put_disk, move_disk, upsert,
}
use hermitstash_sync.Engine.Suppress.{suppress, release}
use hermitstash_sync.Engine.Cursor.{
  update_seq, note_unapplied_seq, maybe_finish_catch_up, handle_heartbeat,
}
use hermitstash_sync.Engine.Conflict.{maybe_save_conflict_copy, unlink_with_retry}
use hermitstash_sync.Engine.Download.{download_path}
use hermitstash_sync.Engine.Download.Laws.{download_path-IsLocal}
use hermitstash_sync.Engine.Download.Frame.{
  maybe_finish_catch_up-IsFramed, held-maybe_finish_catch_up,
}
use hermitstash_sync.Engine.Inbound.{
  Message, file_added, file_replaced, file_removed, file_renamed, heartbeat, other, dispatch,
  apply_server_message,
}
use hermitstash_sync.Engine.Inbound.Gate.{
  FileEvent, in_sync_scope, valid_server_path, enter, leave, advance_if,
}
use hermitstash_sync.Engine.Inbound.Frame.{
  held-update_seq, pending-update_seq, held-note, pending-note, held-enter, pending-enter,
  held-leave, pending-leave,
}
use hermitstash_sync.Engine.Inbound.Fetch.{
  held-fetch_event, pending-fetch_event, held-conflict_copy, pending-conflict_copy,
}
use hermitstash_sync.Engine.Inbound.Added.{
  fetch_event, apply_added, handle_file_added, apply_replaced, handle_file_replaced, recase_disk,
  recase_row, reconcile_case_rename, confirmed_row,
}
use hermitstash_sync.Engine.Inbound.Removed.{
  remove_from_disk, apply_removed, handle_file_removed, handle_file_removed_no_seq,
}
use hermitstash_sync.Engine.Inbound.Renamed.{
  try_rename, rename_in_scope, handle_file_renamed, at_path, enter_both, leave_both,
}

pub record IsBalanced (e e' : Engine) : Type 0 where
  pub held : (key : Text) → e'.held key ≡ e.held key
  pub pending : e'.catch_up_pending ≡ e.catch_up_pending

pub IsBalanced-refl : (e : Engine) → IsBalanced e e
IsBalanced-refl e = record { held = λ key. refl; pending = refl }

pub IsBalanced-trans : {e e' e'' : Engine} → IsBalanced e e' → IsBalanced e' e'' → IsBalanced e e''
IsBalanced-trans a b = record {
  held = λ key. b.held key ∙ a.held key;
  pending = b.pending ∙ a.pending;
}

module _ (w : World) where
  pub update_seq-IsBalanced : (seq : ℕ) (e : Engine) → IsBalanced e (update_seq w seq e)
  update_seq-IsBalanced seq e = record {
    held = λ key. ap (λ (h : Text → ℕ). h key) (held-update_seq w seq e);
    pending = pending-update_seq w seq e;
  }

  note-IsBalanced : (seq : ℕ) (e : Engine) → IsBalanced e (note_unapplied_seq seq e)
  note-IsBalanced seq e = record {
    held = λ key. ap (λ (h : Text → ℕ). h key) (held-note seq e);
    pending = pending-note seq e;
  }

  fetch_event-IsBalanced :
      (path : Text) (msg : FileEvent) (base : Row) (known : Option ℕ) (e : Engine)
      → IsBalanced e (fetch_event w path msg base known e)
  fetch_event-IsBalanced path msg base known e = record {
    held = λ key. held-fetch_event w path msg base known e key;
    pending = pending-fetch_event w path msg base known e;
  }

  pub download-IsBalanced :
      (path : Text) (file_id checksum size : Option ℕ) (e : Engine)
      → IsBalanced e (download_path w path file_id checksum size e).1
  download-IsBalanced path file_id checksum size e =
      let l = download_path-IsLocal w path file_id checksum size e in
      record { held = l.held; pending = l.pending }

  advance_if-IsBalanced : (seq : ℕ) (r : Bool × Engine) → IsBalanced r.1 (advance_if w seq r)
  advance_if-IsBalanced seq (true, e) = update_seq-IsBalanced seq e
  advance_if-IsBalanced seq (false, e) = IsBalanced-refl e

  copy-IsBalanced :
      (path : Text) (incoming known : Option ℕ) (e : Engine)
      → IsBalanced e (maybe_save_conflict_copy w path incoming known e)
  copy-IsBalanced path incoming known e = record {
    held = λ key. ap (λ (h : Text → ℕ). h key) (held-conflict_copy w path incoming known e);
    pending = pending-conflict_copy w path incoming known e;
  }

  recase_disk-IsBalanced : (from to : Text) (e : Engine) → IsBalanced e (recase_disk w from to e).1
  unfolding recase_disk move_disk
  recase_disk-IsBalanced from to e = record { held = λ key. ground arith; pending = ground arith }

  set_files-IsBalanced : (files : Files) (e : Engine) → IsBalanced e (set_files files e)
  set_files-IsBalanced files e = record { held = λ key. refl; pending = refl }

  if-IsBalanced :
      (t : Bool) (e x y : Engine)
      → IsBalanced e x
      → IsBalanced e y
      → IsBalanced e (if t then x else y)
  if-IsBalanced true e x y a b = a
  if-IsBalanced false e x y a b = b

  recase_row-IsBalanced :
      (row : Row) (path : Text) (msg : FileEvent) (e : Engine)
      → IsBalanced e (recase_row w row path msg e)
  unfolding recase_row
  recase_row-IsBalanced row path msg e =
      if-IsBalanced _ e _ _
        (IsBalanced-trans (set_files-IsBalanced _ e) (update_seq-IsBalanced msg.seq _))
        (IsBalanced-trans (set_files-IsBalanced _ e) (
          IsBalanced-trans (copy-IsBalanced path msg.checksum row.server_checksum _) (
            IsBalanced-trans (download-IsBalanced path msg.file_id msg.checksum msg.size _)
              (advance_if-IsBalanced msg.seq _))))

  reconcile-IsBalanced :
      (row : Row) (path : Text) (msg : FileEvent) (e : Engine)
      → IsBalanced e (reconcile_case_rename w row path msg e)
  unfolding reconcile_case_rename
  reconcile-IsBalanced row path msg e =
      let d = recase_disk-IsBalanced row.relative_path path e in
      if-IsBalanced _ e _ _ (IsBalanced-trans d (recase_row-IsBalanced row path msg _))
        (IsBalanced-trans d (note-IsBalanced msg.seq _))

  confirm-IsBalanced :
      (row : Row) (seq : ℕ) (e : Engine) → IsBalanced e (update_seq w seq (upsert row e))
  confirm-IsBalanced row seq e =
      IsBalanced-trans (set_files-IsBalanced _ e) (update_seq-IsBalanced seq (upsert row e))

  apply_added-IsBalanced :
      (path : Text) (msg : FileEvent) (known : Option ℕ) (existing : Option Row) (e : Engine)
      → IsBalanced e (apply_added w path msg known existing e)
  unfolding apply_added
  apply_added-IsBalanced path msg known none e =
      fetch_event-IsBalanced path msg (blank path) known e
  apply_added-IsBalanced path msg known (some row) e =
      if-IsBalanced _ e _ _ (reconcile-IsBalanced row path msg e) (
        if-IsBalanced _ e _ _ (confirm-IsBalanced (confirmed_row path msg row) msg.seq e)
          (fetch_event-IsBalanced path msg (blank path) (or_else known row.server_checksum) e))

  apply_replaced-IsBalanced :
      (path : Text) (msg : FileEvent) (existing : Option Row) (e : Engine)
      → IsBalanced e (apply_replaced w path msg existing e)
  unfolding apply_replaced
  apply_replaced-IsBalanced path msg none e = fetch_event-IsBalanced path msg (blank path) none e
  apply_replaced-IsBalanced path msg (some row) e =
      if-IsBalanced _ e _ _ (reconcile-IsBalanced row path msg e) (
        if-IsBalanced _ e _ _ (confirm-IsBalanced (confirmed_row path msg row) msg.seq e)
          (fetch_event-IsBalanced path msg row row.server_checksum e))

  remove_from_disk-IsBalanced :
      (path : Text) (known : Option ℕ) (e : Engine)
      → IsBalanced e (remove_from_disk w path known e).1
  unfolding remove_from_disk move_disk unlink_with_retry put_disk
  remove_from_disk-IsBalanced path known e = record {
    held = λ key. ground arith;
    pending = ground arith;
  }

  apply_removed-IsBalanced :
      (path : Text) (seq : ℕ) (existing : Option Row) (e : Engine)
      → IsBalanced e (apply_removed w path seq existing e)
  unfolding apply_removed
  apply_removed-IsBalanced path seq existing e =
      let d = remove_from_disk-IsBalanced path (server_checksum_of existing) e in
      if-IsBalanced _ e _ _
        (IsBalanced-trans d
          (IsBalanced-trans (set_files-IsBalanced _ _) (update_seq-IsBalanced seq _)))
        (IsBalanced-trans d (note-IsBalanced seq _))

  -- The brackets of a handler.
  bracket-IsBalanced :
      (path : Text) (e e' : Engine)
      → IsBalanced (enter w path e) e'
      → IsBalanced e (leave w path e')
  bracket-IsBalanced path e e' b = record {
    held = λ key. ground (arith, held-leave w path e' key, b.held key, held-enter w path e key);
    pending = ground (arith, pending-leave w path e', b.pending, pending-enter w path e);
  }

  handle_file_added-IsBalanced :
      (msg : FileEvent) (known : Option ℕ) (e : Engine)
      → IsBalanced e (handle_file_added w msg known e)
  unfolding handle_file_added
  handle_file_added-IsBalanced msg known e =
      if-IsBalanced _ e _ _ (update_seq-IsBalanced msg.seq e) (
        bracket-IsBalanced (identity_key w msg.relative_path) e _
          (apply_added-IsBalanced _ msg known _ _))

  handle_file_replaced-IsBalanced :
      (msg : FileEvent) (e : Engine) → IsBalanced e (handle_file_replaced w msg e)
  unfolding handle_file_replaced
  handle_file_replaced-IsBalanced msg e = if-IsBalanced _ e _ _ (update_seq-IsBalanced msg.seq e) (
      bracket-IsBalanced (identity_key w msg.relative_path) e _
        (apply_replaced-IsBalanced _ msg _ _))

  handle_file_removed-IsBalanced :
      (path : Text) (seq : ℕ) (e : Engine) → IsBalanced e (handle_file_removed w path seq e)
  unfolding handle_file_removed
  handle_file_removed-IsBalanced path seq e =
      if-IsBalanced _ e _ _ (update_seq-IsBalanced seq e)
        (bracket-IsBalanced (identity_key w path) e _ (apply_removed-IsBalanced _ seq _ _))
