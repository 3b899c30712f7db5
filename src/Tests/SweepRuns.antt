-- ===== src/Tests/SweepRuns.antt =====
-- The sweeps, the walk and the initial sync on the host with one tracked file, and a rotation.
use hermitstash_sync.Prelude.{
  ℕ, ◌≡◌, refl, true, false, none, some, [], ◌∷◌, Bool, if◌then◌else◌, arith, codes, same,
}
use hermitstash_sync.Transfer.{File}
use hermitstash_sync.StateDb.Rows.{Row, get_file, pending_upload, get_files_by_status}
use hermitstash_sync.Engine.State.{Engine, Receipt, on_disk}
use hermitstash_sync.Engine.Suppress.{is_suppressed}
use hermitstash_sync.Engine.Inbound.Gate.{valid_server_path}
use hermitstash_sync.Engine.Inbound.AddedLaws.{IsKept}
use hermitstash_sync.Engine.Local.Upload.{sent_row}
use hermitstash_sync.Engine.Recover.Uploads.{recover_pending_uploads}
use hermitstash_sync.Engine.Recover.Sent.{recover_pending_uploads_sends}
use hermitstash_sync.Engine.Initial.{initial_file}
use hermitstash_sync.Engine.Initial.Keeps.{initial_file_keeps, initial_file_replaces_unhashed}
use hermitstash_sync.Engine.Rescan.{rescan_rows}
use hermitstash_sync.Engine.Rescan.Laws.{IsSpared, rescan_rows-IsSpared}
use hermitstash_sync.Engine.Walk.{
  Folder, unreadable, readable, no_more, file, folder, other, walk_dir, walk_entries, is_temp_name,
}
use hermitstash_sync.Engine.Walk.Found.{IsDue, walk_dir_finds}
use hermitstash_sync.Rotation.{
  Offer, Rotation, nothing, halted, rotation_steps, recovery_steps, recover_mtls_from_backup,
  handle_ca_rotation,
}
use hermitstash_sync.Rotation.Crash.{
  IsWhole, whole, started, rotation_survives_crashes, stale_backup_replaces,
}
use hermitstash_sync.Tests.Host.{linux, idle, notes, draft, notes_row, edited, next_version}

-- The upload was cut off by a crash: the row has the digest of the file.
abbrev stranded_row : Row
stranded_row = record notes_row { local_checksum = some 4; status = pending_upload }

abbrev receipt : Receipt
receipt = record { file_id = some 1; checksum = some 4; seq = 9 }

-- Another one, of a file that is gone.
abbrev stranded_draft : Row
stranded_draft = record stranded_row { relative_path = draft }

abbrev stranded : Engine
stranded = record idle { db = record idle.db { files = stranded_draft ∷ stranded_row ∷ [] } }

recover_pending_uploads_sends_example :
    get_file notes (recover_pending_uploads linux stranded).db.files
    ≡ some (sent_row notes receipt (some 4) edited)
unfolding is_suppressed on_disk same get_files_by_status
recover_pending_uploads_sends_example =
    recover_pending_uploads_sends linux stranded_row edited 4 stranded (stranded_draft ∷ []) []
      receipt record { listed = refl; earlier = ((refl, refl), tt); later_ones = tt; new_ones = tt }
      refl refl refl refl refl refl refl refl
      record { answer = refl; agrees = refl; still = refl; uncut = refl }

initial_file_keeps_example : IsKept linux notes edited (initial_file linux idle next_version idle)
unfolding on_disk same
initial_file_keeps_example =
    initial_file_keeps linux idle next_version idle edited record { apart = refl; renames = refl }
      refl refl refl refl refl

-- The file cannot be read.
abbrev locked : File
locked = record edited { hashable = false }

abbrev locked_engine : Engine
locked_engine = record idle { disk = λ key. if same notes key then some locked else none }

initial_file_replaces_unhashed_example :
    let e' = initial_file linux locked_engine next_version locked_engine in
    on_disk linux e' (linux.conflict_path notes) ≡ none
unfolding on_disk same valid_server_path hermitstash_sync.Engine.Download.download_path
    hermitstash_sync.Engine.Download.download_locked hermitstash_sync.Engine.Download.download_body
    hermitstash_sync.Transfer.download_file hermitstash_sync.Transfer.receive
    hermitstash_sync.Transfer.is_verified hermitstash_sync.Engine.Suppress.suppress
initial_file_replaces_unhashed_example =
    (initial_file_replaces_unhashed linux locked_engine next_version locked_engine locked refl refl
      refl refl refl refl).1

rescan_rows-IsSpared_example : IsSpared notes idle (rescan_rows linux [] (notes_row ∷ []) idle)
unfolding on_disk same
rescan_rows-IsSpared_example =
    rescan_rows-IsSpared linux [] (notes_row ∷ []) notes idle (λ t. refl) refl

-- A file, a link, and a directory with a temporary file.
abbrev tree : Folder
tree = readable (
    file notes
      (other (folder (codes "d") (readable (file (codes "x.tmp.0123abcd") no_more)) no_more)))

walk_dir_finds_example : IsDue linux [] tree notes
unfolding walk_dir walk_entries is_temp_name same hermitstash_sync.Engine.Walk.is_ignored_dir
    hermitstash_sync.PathFilter.is_ignored hermitstash_sync.PathFilter.match_any
    hermitstash_sync.PathFilter.starts_with
walk_dir_finds_example = (walk_dir_finds linux [] tree notes refl).0 refl

abbrev agrees : ℕ → ℕ → Bool
agrees c k = true

abbrev offer : Offer
offer = record { new_cert = 5; new_key = 6; new_ca = 7 }

-- The swap of the key did not come to pass; the recovery stops in its copy of the key.
rotation_survives_crashes_example :
    let crashed = halted 7 none (rotation_steps offer) (started agrees offer 1 2 3 nothing) in
    IsWhole agrees offer 1 2 3 (
      recover_mtls_from_backup agrees
        (halted 1 (some (some 9)) (recovery_steps agrees crashed) crashed))
rotation_survives_crashes_example =
    rotation_survives_crashes agrees offer 1 2 3 nothing 7 none 1 (some (some 9)) refl refl refl
      refl

-- The second file to be staged cannot be written.
abbrev thrown : Rotation
thrown = record {
  offer = some offer;
  dry_run = false;
  is_configured = true;
  is_valid = true;
  is_capable = true;
  throws = some (record { after = 1; within = none });
}

stale_backup_replaces_example :
    (handle_ca_rotation agrees thrown (started agrees offer 1 2 3 (whole 8 9 10))).1.live
    ≡ whole 8 9 10
stale_backup_replaces_example =
    (stale_backup_replaces agrees offer 1 2 3 thrown 8 9 10 0 refl refl refl refl (omega arith)).1
