-- ===== src/Tests/LocalRuns.antt =====
-- The local side on concrete files.
use hermitstash_sync.Prelude.{◌≡◌, refl, false, none, some, same}
use hermitstash_sync.StateDb.Rows.{
  Row, get_file, get_file_folded, synced as synced_row, pending_delete,
}
use hermitstash_sync.Transfer.{File}
use hermitstash_sync.Engine.State.{Engine, World, Receipt, on_disk, hash_of, lookup_tracked}
use hermitstash_sync.Engine.Suppress.{is_suppressed}
use hermitstash_sync.Engine.Local.Delete.{execute_delete}
use hermitstash_sync.Engine.Local.DeleteLaws.{IsOutcome, execute_delete-IsOutcome}
use hermitstash_sync.Engine.Local.Upload.{upload_file}
use hermitstash_sync.Engine.Local.UploadLaws.{upload_file_synced}
use hermitstash_sync.Tests.Host.{linux, idle, notes, notes_row}

execute_delete-IsOutcome_example :
    IsOutcome linux notes notes_row false idle (execute_delete linux notes notes_row false idle)
unfolding get_file_folded get_file same
execute_delete-IsOutcome_example = execute_delete-IsOutcome linux notes notes_row false idle

abbrev receipt : Receipt
receipt = record { file_id = some 1; checksum = some 4; seq = 9 }

abbrev sent_notes : Row
sent_notes = record notes_row {
  local_checksum = some 4;
  server_checksum = some 4;
  local_mtime = some 2;
  size = some 12;
  server_seq = 9;
}

upload_file_synced_example :
    (file : File) × (on_disk linux (upload_file linux notes none idle) notes ≡ some file)
    × (hash_of (some file) ≡ some 4)
    × (sent_notes.local_checksum ≡ some 4)
    × (sent_notes.server_checksum ≡ some 4)
unfolding is_suppressed upload_file get_file same hermitstash_sync.Engine.Cursor.maybe_mark_synced
    hermitstash_sync.Engine.Local.Upload.upload_body
    hermitstash_sync.Engine.Local.Upload.settle_upload
    hermitstash_sync.Engine.Local.Upload.settle_found on_disk hermitstash_sync.Engine.State.put_disk
    hermitstash_sync.StateDb.Rows.write_row
upload_file_synced_example =
    upload_file_synced linux notes none idle receipt sent_notes refl refl refl refl refl
