-- ===== src/Tests/InboundRuns.antt =====
-- The inbound theorems on an event for a file with a local edit.
use hermitstash_sync.Prelude.{◌≡◌, ◌⊎◌, refl, none, some, arith, same}
use hermitstash_sync.Engine.State.{Engine, World, on_disk, lookup_tracked, hash_of}
use hermitstash_sync.StateDb.Rows.{get_file, get_file_folded, error as error_row}
use hermitstash_sync.StateDb.Meta.{get_last_seq, get_meta, set_meta, set_last_seq}
use hermitstash_sync.Engine.Cursor.{last_seq, update_seq}
use hermitstash_sync.Engine.Inbound.Gate.{
  is_accepted, valid_server_path, in_sync_scope, enter, leave,
}
use hermitstash_sync.PathFilter.{should_sync, is_ignored, is_included, match_any}
use hermitstash_sync.Engine.Inbound.{apply_server_message, file_replaced}
use hermitstash_sync.Engine.Inbound.Added.{handle_file_added, handle_file_replaced}
use hermitstash_sync.Engine.Inbound.Removed.{handle_file_removed}
use hermitstash_sync.Engine.Inbound.RemovedLaws.{
  handle_file_removed_keeps, handle_file_removed_honest,
}
use hermitstash_sync.Engine.Inbound.AddedLaws.{IsKept}
use hermitstash_sync.Engine.Inbound.Delivery.{handle_file_added_keeps, handle_file_added_honest}
use hermitstash_sync.Engine.Inbound.Fetch.{IsConfirmed}
use hermitstash_sync.Engine.Inbound.Balanced.{IsBalanced}
use hermitstash_sync.Engine.Inbound.Balanced.Events.{apply_server_message-IsBalanced}
use hermitstash_sync.Engine.Inbound.Forward.{IsForward}
use hermitstash_sync.Engine.Inbound.Forward.Events.{apply_server_message-IsForward}
use hermitstash_sync.Engine.Inbound.Tracked.{IsTracked, handle_file_added-IsTracked}
use hermitstash_sync.Tests.Host.{unanswered, linux, idle, notes, copy_of, edited, next_version}

handle_file_removed_keeps_example :
    (on_disk linux (handle_file_removed linux notes 5 idle) notes ≡ some edited)
    ⊎ (on_disk linux (handle_file_removed linux notes 5 idle) (copy_of notes) ≡ some edited)
unfolding on_disk same get_file_folded get_file
handle_file_removed_keeps_example = handle_file_removed_keeps linux notes 5 idle edited refl refl

handle_file_added_keeps_example :
    IsKept linux notes edited (handle_file_added linux next_version none idle)
unfolding on_disk same get_file_folded get_file
handle_file_added_keeps_example =
    handle_file_added_keeps linux next_version idle edited record { apart = refl; renames = refl }
      refl refl refl refl

apply_server_message-IsBalanced_example :
    IsBalanced idle (apply_server_message linux (file_replaced next_version) idle)
apply_server_message-IsBalanced_example =
    apply_server_message-IsBalanced linux (file_replaced next_version) idle

seq_before : last_seq idle ≡ 0
unfolding get_last_seq get_meta
seq_before = refl

seq_added : last_seq (handle_file_added linux next_version none idle) ≡ 5
unfolding handle_file_added get_last_seq get_meta is_accepted valid_server_path in_sync_scope
    should_sync match_any leave hermitstash_sync.Engine.Cursor.maybe_finish_catch_up
    hermitstash_sync.Engine.Suppress.release hermitstash_sync.Engine.Inbound.Added.apply_added
    get_file_folded get_file enter hermitstash_sync.Engine.Suppress.suppress same
    hermitstash_sync.Engine.Inbound.Added.fetch_event
    hermitstash_sync.Engine.Conflict.maybe_save_conflict_copy
    hermitstash_sync.Engine.Cursor.maybe_mark_synced
    hermitstash_sync.Engine.Cursor.note_unapplied_seq update_seq
    hermitstash_sync.Engine.Download.download_body hermitstash_sync.Engine.Download.download_locked
    hermitstash_sync.Engine.Download.download_path hermitstash_sync.Engine.Inbound.Added.recase_disk
    hermitstash_sync.Engine.Inbound.Added.recase_row
    hermitstash_sync.Engine.Inbound.Added.reconcile_case_rename
    hermitstash_sync.Engine.State.move_disk on_disk hermitstash_sync.Engine.State.put_disk
    hermitstash_sync.Engine.Suppress.supp_key is_ignored is_included
    hermitstash_sync.StateDb.Decimal.parse_natural hermitstash_sync.StateDb.Decimal.print
    set_last_seq set_meta hermitstash_sync.StateDb.Rows.get_file_nocase
    hermitstash_sync.StateDb.Rows.remove_file hermitstash_sync.StateDb.Rows.rename_file
    hermitstash_sync.StateDb.Rows.update_file_status hermitstash_sync.StateDb.Rows.upsert_file
    hermitstash_sync.StateDb.Rows.write_row hermitstash_sync.Transfer.download_file
    hermitstash_sync.Transfer.is_verified hermitstash_sync.Transfer.receive
seq_added = refl

seq_replaced : last_seq (handle_file_replaced linux next_version idle) ≡ 5
unfolding handle_file_replaced hermitstash_sync.Engine.Inbound.Added.apply_replaced get_last_seq
    get_meta is_accepted valid_server_path in_sync_scope should_sync match_any leave
    hermitstash_sync.Engine.Cursor.maybe_finish_catch_up hermitstash_sync.Engine.Suppress.release
    hermitstash_sync.Engine.Inbound.Added.apply_added get_file_folded get_file enter
    hermitstash_sync.Engine.Suppress.suppress same hermitstash_sync.Engine.Inbound.Added.fetch_event
    hermitstash_sync.Engine.Conflict.maybe_save_conflict_copy
    hermitstash_sync.Engine.Cursor.maybe_mark_synced
    hermitstash_sync.Engine.Cursor.note_unapplied_seq update_seq
    hermitstash_sync.Engine.Download.download_body hermitstash_sync.Engine.Download.download_locked
    hermitstash_sync.Engine.Download.download_path hermitstash_sync.Engine.Inbound.Added.recase_disk
    hermitstash_sync.Engine.Inbound.Added.recase_row
    hermitstash_sync.Engine.Inbound.Added.reconcile_case_rename
    hermitstash_sync.Engine.State.move_disk on_disk hermitstash_sync.Engine.State.put_disk
    hermitstash_sync.Engine.Suppress.supp_key is_ignored is_included
    hermitstash_sync.StateDb.Decimal.parse_natural hermitstash_sync.StateDb.Decimal.print
    set_last_seq set_meta hermitstash_sync.StateDb.Rows.get_file_nocase
    hermitstash_sync.StateDb.Rows.remove_file hermitstash_sync.StateDb.Rows.rename_file
    hermitstash_sync.StateDb.Rows.update_file_status hermitstash_sync.StateDb.Rows.upsert_file
    hermitstash_sync.StateDb.Rows.write_row hermitstash_sync.Transfer.download_file
    hermitstash_sync.Transfer.is_verified hermitstash_sync.Transfer.receive
seq_replaced = refl

seq_removed : last_seq (handle_file_removed linux notes 5 idle) ≡ 5
unfolding handle_file_removed hermitstash_sync.Engine.Inbound.Removed.apply_removed
    hermitstash_sync.Engine.Inbound.Removed.remove_from_disk
    hermitstash_sync.Engine.Conflict.unlink_with_retry get_last_seq get_meta is_accepted
    valid_server_path in_sync_scope should_sync match_any leave
    hermitstash_sync.Engine.Cursor.maybe_finish_catch_up hermitstash_sync.Engine.Suppress.release
    hermitstash_sync.Engine.Inbound.Added.apply_added get_file_folded get_file enter
    hermitstash_sync.Engine.Suppress.suppress same hermitstash_sync.Engine.Inbound.Added.fetch_event
    hermitstash_sync.Engine.Conflict.maybe_save_conflict_copy
    hermitstash_sync.Engine.Cursor.maybe_mark_synced
    hermitstash_sync.Engine.Cursor.note_unapplied_seq update_seq
    hermitstash_sync.Engine.Download.download_body hermitstash_sync.Engine.Download.download_locked
    hermitstash_sync.Engine.Download.download_path hermitstash_sync.Engine.Inbound.Added.recase_disk
    hermitstash_sync.Engine.Inbound.Added.recase_row
    hermitstash_sync.Engine.Inbound.Added.reconcile_case_rename
    hermitstash_sync.Engine.State.move_disk on_disk hermitstash_sync.Engine.State.put_disk
    hermitstash_sync.Engine.Suppress.supp_key is_ignored is_included
    hermitstash_sync.StateDb.Decimal.parse_natural hermitstash_sync.StateDb.Decimal.print
    set_last_seq set_meta hermitstash_sync.StateDb.Rows.get_file_nocase
    hermitstash_sync.StateDb.Rows.remove_file hermitstash_sync.StateDb.Rows.rename_file
    hermitstash_sync.StateDb.Rows.update_file_status hermitstash_sync.StateDb.Rows.upsert_file
    hermitstash_sync.StateDb.Rows.write_row hermitstash_sync.Transfer.download_file
    hermitstash_sync.Transfer.is_verified hermitstash_sync.Transfer.receive
seq_removed = refl

handle_file_added_honest_example :
    IsConfirmed notes next_version (handle_file_added linux next_version none idle).db.files
unfolding is_accepted valid_server_path in_sync_scope should_sync is_ignored is_included match_any
    get_file_folded get_file same
handle_file_added_honest_example =
    handle_file_added_honest linux next_version idle refl refl
      (ground (arith, seq_before, seq_added))

handle_file_removed_honest_example :
    (on_disk linux (handle_file_removed linux notes 5 idle) notes ≡ none)
    × (get_file notes (handle_file_removed linux notes 5 idle).db.files ≡ none)
unfolding is_accepted valid_server_path in_sync_scope should_sync is_ignored is_included match_any
    get_file_folded get_file same
handle_file_removed_honest_example =
    handle_file_removed_honest linux notes 5 idle refl refl
      (ground (arith, seq_before, seq_removed))

apply_server_message-IsForward_example :
    IsForward 5 idle (apply_server_message linux (file_replaced next_version) idle)
apply_server_message-IsForward_example =
    apply_server_message-IsForward linux (file_replaced next_version) idle

handle_file_added-IsTracked_example :
    IsTracked notes next_version (handle_file_added unanswered next_version none idle).db.files
unfolding is_accepted valid_server_path in_sync_scope should_sync is_ignored is_included match_any
    get_file_folded get_file same
handle_file_added-IsTracked_example =
    handle_file_added-IsTracked unanswered next_version idle refl refl
