-- ===== src/Engine/Inbound/Balanced/Events.antt =====
-- A rename, and the dispatch of any event, give back what they took.
use hermitstash_sync.Prelude.{ℕ, ◌-◌, ◌≡◌, ap, ◌∙◌, not, ◌&&◌, ◌||◌, none, arith, Text}
use hermitstash_sync.Engine.State.{Engine, World, identity_key, put_disk, move_disk}
use hermitstash_sync.Engine.Suppress.{suppress, release}
use hermitstash_sync.Engine.Cursor.{maybe_finish_catch_up, handle_heartbeat}
use hermitstash_sync.Engine.Conflict.{unlink_with_retry}
use hermitstash_sync.Engine.Download.Frame.{
  maybe_finish_catch_up-IsFramed, held-maybe_finish_catch_up,
}
use hermitstash_sync.Engine.Inbound.{
  Message, file_added, file_replaced, file_removed, file_renamed, heartbeat, other, dispatch,
  apply_server_message,
}
use hermitstash_sync.Engine.Inbound.Gate.{FileEvent, in_sync_scope, valid_server_path}
use hermitstash_sync.Engine.Inbound.Removed.{handle_file_removed_no_seq}
use hermitstash_sync.Engine.Inbound.Renamed.{
  try_rename, rename_in_scope, handle_file_renamed, at_path, enter_both, leave_both,
}
use hermitstash_sync.Engine.Inbound.Balanced.{
  IsBalanced-refl, IsBalanced-trans, update_seq-IsBalanced, if-IsBalanced,
  handle_file_added-IsBalanced, handle_file_replaced-IsBalanced, handle_file_removed-IsBalanced,
  IsBalanced,
}

module _ (w : World) where
  removed_no_seq-IsBalanced :
      (path : Text) (e : Engine) → IsBalanced e (handle_file_removed_no_seq w path e)
  unfolding handle_file_removed_no_seq unlink_with_retry put_disk suppress release
  removed_no_seq-IsBalanced path e = record { held = λ key. ground arith; pending = ground arith }

  try_rename-IsBalanced :
      (old_path path : Text) (msg : FileEvent) (e : Engine)
      → IsBalanced e (try_rename w old_path path msg e).2
  unfolding try_rename move_disk
  try_rename-IsBalanced old_path path msg e = record {
    held = λ key. ground arith;
    pending = ground arith;
  }

  released_both : Text → Text → Engine → Engine
  released_both old_path path e' =
      let x = release w path (release w old_path e') in
      record x { catch_up_pending = x.catch_up_pending - 1 }

  bracket_both-IsBalanced :
      (old_path path : Text) (e e' : Engine)
      → IsBalanced (enter_both w old_path path e) e'
      → IsBalanced e (leave_both w old_path path e')
  unfolding suppress release released_both
  bracket_both-IsBalanced old_path path e e' b = record {
    held = λ key.
        ap (λ (h : Text → ℕ). h key) (held-maybe_finish_catch_up w (released_both old_path path e'))
        ∙ both key;
    pending = ground (
      arith,
      (maybe_finish_catch_up-IsFramed w (released_both old_path path e')).pending,
      b.pending,
    );
  }
    where
      both : (key : Text) → (released_both old_path path e').held key ≡ e.held key
      both key = ground (arith, b.held key)

  rename_in_scope-IsBalanced :
      (old_path path : Text) (msg : FileEvent) (e : Engine)
      → IsBalanced e (rename_in_scope w old_path path msg e)
  unfolding rename_in_scope
  rename_in_scope-IsBalanced old_path path msg e =
      let b =
        bracket_both-IsBalanced old_path path e _ (try_rename-IsBalanced old_path path msg _) in
      if-IsBalanced w _ e _ _ (IsBalanced-trans b (update_seq-IsBalanced w msg.seq _)) (
        IsBalanced-trans b (
          IsBalanced-trans (removed_no_seq-IsBalanced old_path _)
            (handle_file_added-IsBalanced w (at_path path msg) _ _)))

  handle_file_renamed-IsBalanced :
      (old_path : Text) (msg : FileEvent) (e : Engine)
      → IsBalanced e (handle_file_renamed w old_path msg e)
  unfolding handle_file_renamed
  handle_file_renamed-IsBalanced old_path msg e =
      let from = identity_key w old_path in
      let to = identity_key w msg.relative_path in
      let skip = update_seq-IsBalanced w msg.seq e in
      let rename = rename_in_scope-IsBalanced from to msg e in
      let remove = handle_file_removed-IsBalanced w from msg.seq e in
      let add = handle_file_added-IsBalanced w (at_path to msg) none e in
      if-IsBalanced w (not (w.safe_path from) || not (w.safe_path to)) e _ _ skip (
        if-IsBalanced w (not (valid_server_path w from && valid_server_path w to)) e _ _ skip (
          if-IsBalanced w (in_sync_scope w from) e _ _
            (if-IsBalanced w (in_sync_scope w to) e _ _ rename remove)
            (if-IsBalanced w (in_sync_scope w to) e _ _ add skip)))

  handle_heartbeat-IsBalanced : (seq : ℕ) (e : Engine) → IsBalanced e (handle_heartbeat w seq e)
  unfolding handle_heartbeat maybe_finish_catch_up
  handle_heartbeat-IsBalanced seq e = record { held = λ key. ground arith; pending = ground arith }

  dispatch-IsBalanced : (msg : Message) (e : Engine) → IsBalanced e (dispatch w msg e)
  unfolding dispatch
  dispatch-IsBalanced (file_added msg) e = handle_file_added-IsBalanced w msg none e
  dispatch-IsBalanced (file_replaced msg) e = handle_file_replaced-IsBalanced w msg e
  dispatch-IsBalanced (file_removed path seq) e = handle_file_removed-IsBalanced w path seq e
  dispatch-IsBalanced (file_renamed old_path msg) e = handle_file_renamed-IsBalanced old_path msg e
  dispatch-IsBalanced (heartbeat seq) e = handle_heartbeat-IsBalanced seq e
  dispatch-IsBalanced other e = IsBalanced-refl e

-- Whatever server event is applied, and however it ends, each path is suppressed exactly as often as
-- before, and the count of catch-up work is what it was.
pub apply_server_message-IsBalanced :
    (w : World) (msg : Message) (e : Engine) → IsBalanced e (apply_server_message w msg e)
unfolding apply_server_message
apply_server_message-IsBalanced w msg e =
    if-IsBalanced w e.stopped e e (dispatch w msg e) (IsBalanced-refl e)
      (dispatch-IsBalanced w msg e)
