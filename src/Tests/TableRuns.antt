-- ===== src/Tests/TableRuns.antt =====
-- The theorems on the tables and on downloads.
use hermitstash_sync.Prelude.{
  ◌≡◌, ◌⊎◌, refl, true, false, none, some, [], ◌∷◌, if◌then◌else◌, Text, codes, same, is_empty,
}
use hermitstash_sync.StateDb.Rows.{Row, Files, get_file, rename_file, error as error_row}
use hermitstash_sync.StateDb.Unique.{rename_file_atomic}
use hermitstash_sync.StateDb.Meta.{
  get_last_seq, set_last_seq, get_last_seq-set_last_seq, last_seq_key,
}
use hermitstash_sync.Transfer.{File, download_file}
use hermitstash_sync.Engine.Download.{download_path}
use hermitstash_sync.Engine.Download.Laws.{download_path_failed}
use hermitstash_sync.Tests.Host.{unanswered, idle, notes, draft, notes_row}

abbrev as_draft : Row
as_draft = record notes_row { relative_path = draft }

rename_file_atomic_example :
    let (files', threw) = rename_file notes as_draft (notes_row ∷ []) in
    ((is_empty draft ≡ true) × (threw ≡ true) × (files' ≡ notes_row ∷ []))
    ⊎ ((is_empty draft ≡ false)
        × (threw ≡ false)
        × ((path : Text)
            → get_file path files' ≡ (
                if same draft path
                then some as_draft
                else if same notes path
                then none
                else get_file path (notes_row ∷ []))))
rename_file_atomic_example = rename_file_atomic notes as_draft (notes_row ∷ [])

get_last_seq-set_last_seq_example :
    get_last_seq (set_last_seq (some 40) ((last_seq_key, codes "x") ∷ [])) ≡ 40
get_last_seq-set_last_seq_example = get_last_seq-set_last_seq 40 ((last_seq_key, codes "x") ∷ [])

abbrev received : File
received = record { digest = 7; bytes = 30; hashable = true; mtime = 99 }

download_path_failed_example : (record notes_row { status = error_row }).status ≡ error_row
unfolding download_path hermitstash_sync.Engine.Download.download_locked
    hermitstash_sync.Engine.Download.download_body download_file get_file
    hermitstash_sync.Engine.Cursor.maybe_finish_catch_up
    hermitstash_sync.Engine.Cursor.maybe_mark_synced hermitstash_sync.Engine.Suppress.release
    hermitstash_sync.Engine.Suppress.suppress hermitstash_sync.StateDb.Rows.update_file_status same
download_path_failed_example =
    download_path_failed unanswered notes (some 1) (some 7) (some 30) idle
      (record notes_row { status = error_row }) refl refl refl refl
