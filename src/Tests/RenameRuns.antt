-- ===== src/Tests/RenameRuns.antt =====
-- The rename theorems: one that lands, and one whose move fails.
use hermitstash_sync.Prelude.{◌≡◌, refl, none, some, if◌then◌else◌, Text, same}
use hermitstash_sync.StateDb.Rows.{Row, get_file, get_file_folded}
use hermitstash_sync.Engine.State.{Engine, on_disk}
use hermitstash_sync.Engine.Conflict.{unlink_loop}
use hermitstash_sync.Engine.Inbound.Renamed.{move_result, rename_in_scope, renamed_row}
use hermitstash_sync.Engine.Inbound.RenamedLaws.{rename_in_scope_lands}
use hermitstash_sync.Engine.Inbound.Fallback.{rename_in_scope_purges}
use hermitstash_sync.Tests.Host.{linux, blocked, idle, notes, draft, notes_row, edited, to_draft}

abbrev renamed_notes : Row
renamed_notes = renamed_row linux draft to_draft (some notes_row)

abbrev moved : Engine
moved = rename_in_scope linux notes draft to_draft idle

rename_in_scope_lands_example :
    ((key : Text)
      → moved.disk key
        ≡ (if same draft key then some edited else if same notes key then none else idle.disk key))
    × ((name : Text)
        → get_file name moved.db.files ≡ (
            if same draft name
            then some renamed_notes
            else if same notes name
            then none
            else get_file name idle.db.files))
unfolding move_result on_disk same get_file_folded get_file
rename_in_scope_lands_example = rename_in_scope_lands linux notes draft to_draft idle refl refl refl

-- The edit of the file is nowhere after the failed move.
rename_in_scope_purges_example :
    (rename_in_scope blocked notes draft to_draft idle).disk notes ≡ none
unfolding move_result on_disk same unlink_loop
rename_in_scope_purges_example =
    rename_in_scope_purges blocked notes draft to_draft idle refl refl refl refl refl notes
      record { not_path = refl; not_copy = refl }
