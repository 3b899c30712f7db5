-- ===== src/Engine/Inbound/Forward/Events.antt =====
-- The file events, and the dispatch of any event, move the cursor forward only.
use hermitstash_sync.Prelude.{ℕ, refl, not, ◌&&◌, ◌||◌, Option, none, some, arith, or_else, Text}
use hermitstash_sync.StateDb.Rows.{Row, blank}
use hermitstash_sync.Engine.State.{Engine, World, identity_key, move_disk, upsert}
use hermitstash_sync.Engine.Suppress.{suppress, release}
use hermitstash_sync.Engine.Download.Frame.{maybe_finish_catch_up-IsFramed}
use hermitstash_sync.Engine.Inbound.{
  Message, file_added, file_replaced, file_removed, file_renamed, heartbeat, other, dispatch,
  apply_server_message,
}
use hermitstash_sync.Engine.Inbound.Gate.{FileEvent, in_sync_scope, valid_server_path}
use hermitstash_sync.Engine.Inbound.Added.{
  fetch_event, apply_added, handle_file_added, apply_replaced, handle_file_replaced, recase_disk,
  recase_row, reconcile_case_rename, confirmed_row, pending_row,
}
use hermitstash_sync.Engine.Inbound.Renamed.{
  try_rename, rename_in_scope, handle_file_renamed, at_path, enter_both, leave_both,
}
use hermitstash_sync.Engine.Inbound.Forward.{
  seq_of, still-IsForward, IsForward-trans, update_seq-IsForward, note-IsForward, if-IsForward,
  set_files-IsForward, confirm-IsForward, copied_download-IsForward, cursor-copy, bracket-IsForward,
  handle_file_removed-IsForward, removed_no_seq-IsForward, handle_heartbeat-IsForward, IsForward,
}

module _ (w : World) (msg : FileEvent) where
  fetch_event-IsForward :
      (path : Text) (base : Row) (known : Option ℕ) (e : Engine)
      → IsForward msg.seq e (fetch_event w path msg base known e)
  unfolding fetch_event
  fetch_event-IsForward path base known e =
      copied_download-IsForward w msg.seq path msg.file_id msg.checksum msg.size known
        (upsert (pending_row path msg base)) e (cursor-copy w msg.seq path msg.checksum known e)

  recase_disk-IsForward :
      (from to : Text) (e : Engine) → IsForward msg.seq e (recase_disk w from to e).1
  unfolding recase_disk move_disk
  recase_disk-IsForward from to e = still-IsForward msg.seq e _ (ground arith)

  recase_row-IsForward :
      (row : Row) (path : Text) (e : Engine) → IsForward msg.seq e (recase_row w row path msg e)
  unfolding recase_row
  recase_row-IsForward row path e =
      if-IsForward w msg.seq _ e _ _
        (IsForward-trans (set_files-IsForward w msg.seq _ e) (update_seq-IsForward w msg.seq _))
        (IsForward-trans (set_files-IsForward w msg.seq _ e) (
          copied_download-IsForward w msg.seq path msg.file_id msg.checksum msg.size
            row.server_checksum (λ x. x) _
            (cursor-copy w msg.seq path msg.checksum row.server_checksum _)))

  reconcile-IsForward :
      (row : Row) (path : Text) (e : Engine)
      → IsForward msg.seq e (reconcile_case_rename w row path msg e)
  unfolding reconcile_case_rename
  reconcile-IsForward row path e =
      let d = recase_disk-IsForward row.relative_path path e in
      if-IsForward w msg.seq _ e _ _ (IsForward-trans d (recase_row-IsForward row path _))
        (IsForward-trans d (note-IsForward w msg.seq _))

  apply_added-IsForward :
      (path : Text) (known : Option ℕ) (existing : Option Row) (e : Engine)
      → IsForward msg.seq e (apply_added w path msg known existing e)
  unfolding apply_added
  apply_added-IsForward path known none e = fetch_event-IsForward path (blank path) known e
  apply_added-IsForward path known (some row) e =
      if-IsForward w msg.seq _ e _ _ (reconcile-IsForward row path e) (
        if-IsForward w msg.seq _ e _ _ (confirm-IsForward w msg.seq (confirmed_row path msg row) e)
          (fetch_event-IsForward path (blank path) (or_else known row.server_checksum) e))

  apply_replaced-IsForward :
      (path : Text) (existing : Option Row) (e : Engine)
      → IsForward msg.seq e (apply_replaced w path msg existing e)
  unfolding apply_replaced
  apply_replaced-IsForward path none e = fetch_event-IsForward path (blank path) none e
  apply_replaced-IsForward path (some row) e =
      if-IsForward w msg.seq _ e _ _ (reconcile-IsForward row path e) (
        if-IsForward w msg.seq _ e _ _ (confirm-IsForward w msg.seq (confirmed_row path msg row) e)
          (fetch_event-IsForward path row row.server_checksum e))

  handle_file_added-IsForward :
      (known : Option ℕ) (e : Engine) → IsForward msg.seq e (handle_file_added w msg known e)
  unfolding handle_file_added
  handle_file_added-IsForward known e =
      if-IsForward w msg.seq _ e _ _ (update_seq-IsForward w msg.seq e) (
        bracket-IsForward w msg.seq (identity_key w msg.relative_path) e _
          (apply_added-IsForward _ known _ _))

  handle_file_replaced-IsForward : (e : Engine) → IsForward msg.seq e (handle_file_replaced w msg e)
  unfolding handle_file_replaced
  handle_file_replaced-IsForward e =
      if-IsForward w msg.seq _ e _ _ (update_seq-IsForward w msg.seq e) (
        bracket-IsForward w msg.seq (identity_key w msg.relative_path) e _
          (apply_replaced-IsForward _ _ _))

module _ (w : World) (msg : FileEvent) where
  handle_file_added_at-IsForward :
      (path : Text) (known : Option ℕ) (e : Engine)
      → IsForward msg.seq e (handle_file_added w (at_path path msg) known e)
  handle_file_added_at-IsForward path known e =
      handle_file_added-IsForward w (at_path path msg) known e

  try_rename-IsForward :
      (old_path path : Text) (e : Engine) → IsForward msg.seq e (try_rename w old_path path msg e).2
  unfolding try_rename move_disk
  try_rename-IsForward old_path path e = still-IsForward msg.seq e _ (ground arith)

  bracket_both-IsForward :
      (old_path path : Text) (e e' : Engine)
      → IsForward msg.seq (enter_both w old_path path e) e'
      → IsForward msg.seq e (leave_both w old_path path e')
  unfolding suppress release
  bracket_both-IsForward old_path path e e' f =
      IsForward-trans (still-IsForward msg.seq e (enter_both w old_path path e) refl) (
        IsForward-trans f (
          still-IsForward msg.seq e' (leave_both w old_path path e')
            (maybe_finish_catch_up-IsFramed w _).cursor))

  rename_in_scope-IsForward :
      (old_path path : Text) (e : Engine)
      → IsForward msg.seq e (rename_in_scope w old_path path msg e)
  unfolding rename_in_scope
  rename_in_scope-IsForward old_path path e =
      let b = bracket_both-IsForward old_path path e _ (try_rename-IsForward old_path path _) in
      if-IsForward w msg.seq _ e _ _ (IsForward-trans b (update_seq-IsForward w msg.seq _)) (
        IsForward-trans b (
          IsForward-trans (removed_no_seq-IsForward w msg.seq old_path _)
            (handle_file_added_at-IsForward path _ _)))

  handle_file_renamed-IsForward :
      (old_path : Text) (e : Engine) → IsForward msg.seq e (handle_file_renamed w old_path msg e)
  unfolding handle_file_renamed
  handle_file_renamed-IsForward old_path e =
      let from = identity_key w old_path in
      let to = identity_key w msg.relative_path in
      let skip = update_seq-IsForward w msg.seq e in
      let rename = rename_in_scope-IsForward from to e in
      let remove = handle_file_removed-IsForward w msg.seq from e in
      let add = handle_file_added_at-IsForward to none e in
      if-IsForward w msg.seq (not (w.safe_path from) || not (w.safe_path to)) e _ _ skip (
        if-IsForward w msg.seq (not (valid_server_path w from && valid_server_path w to)) e _ _ skip
          (if-IsForward w msg.seq (in_sync_scope w from) e _ _
            (if-IsForward w msg.seq (in_sync_scope w to) e _ _ rename remove)
            (if-IsForward w msg.seq (in_sync_scope w to) e _ _ add skip)))

dispatch-IsForward :
    (w : World) (msg : Message) (e : Engine) → IsForward (seq_of msg) e (dispatch w msg e)
unfolding dispatch
dispatch-IsForward w (file_added msg) e = handle_file_added-IsForward w msg none e
dispatch-IsForward w (file_replaced msg) e = handle_file_replaced-IsForward w msg e
dispatch-IsForward w (file_removed path seq) e = handle_file_removed-IsForward w seq path e
dispatch-IsForward w (file_renamed old_path msg) e = handle_file_renamed-IsForward w msg old_path e
dispatch-IsForward w (heartbeat seq) e = handle_heartbeat-IsForward w seq seq e
dispatch-IsForward w other e = still-IsForward 0 e e refl

-- Whatever server event is applied, and however it ends, the cursor does not fall, and it ends at most
-- at the larger of where it was and the event's number.
pub apply_server_message-IsForward :
    (w : World) (msg : Message) (e : Engine)
    → IsForward (seq_of msg) e (apply_server_message w msg e)
unfolding apply_server_message
apply_server_message-IsForward w msg e =
    if-IsForward w (seq_of msg) e.stopped e e (dispatch w msg e)
      (still-IsForward (seq_of msg) e e refl) (dispatch-IsForward w msg e)
