-- ===== src/Tests/MoveRuns.antt =====
-- A local rename: the tracked file was deleted, and a file of its content appears beside it.
use hermitstash_sync.Prelude.{
  ◌≡◌, refl, none, some, List, [], ◌∷◌, arith, if◌then◌else◌, Text, same,
}
use hermitstash_sync.StateDb.Rows.{Row, get_file, synced as synced_row}
use hermitstash_sync.Engine.State.{Engine, Pending}
use hermitstash_sync.Engine.Local.Delete.{pending_of}
use hermitstash_sync.Engine.Local.Rename.{rename_step, moved_row}
use hermitstash_sync.Engine.Local.RenameLaws.{rename_step_honest}
use hermitstash_sync.Engine.Local.Modify.{Change, modify_locked}
use hermitstash_sync.Engine.Local.ModifyLaws.{modify_locked_fuel}
use hermitstash_sync.Tests.Host.{linux, idle, notes, draft, notes_row}

abbrev buffered : List (Text × Pending)
buffered = (notes, pending_of notes_row) ∷ []

abbrev draft_row : Row
draft_row = moved_row draft (pending_of notes_row) 3 10 none 9

rename_step_honest_example :
    ((name : Text)
      → get_file name
          (rename_step linux notes draft (pending_of notes_row) 3 10 none idle).1.db.files
        ≡ (if same draft name
            then some draft_row
            else if same notes name
            then none
            else get_file name idle.db.files))
    × (draft_row.status ≡ synced_row → notes_row.server_checksum ≡ some 3)
rename_step_honest_example =
    rename_step_honest linux notes draft (pending_of notes_row) 3 10 none idle 9 refl refl

abbrev change : Change
change = record { size = none; mtime = none }

abbrev waiting : Engine
waiting = record idle { pending_deletes = buffered }

modify_locked_fuel_example :
    modify_locked 2 linux draft change waiting ≡ modify_locked 7 linux draft change waiting
modify_locked_fuel_example =
    modify_locked_fuel linux draft change 2 7 waiting (omega arith) (omega arith)
