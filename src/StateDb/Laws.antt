-- ===== src/StateDb/Laws.antt =====
-- The laws of the table `files` by which the other modules reason.
use hermitstash_sync.Prelude.{
  ◌≡◌, refl, Option, none, some, [], ◌∷◌, arith, if◌then◌else◌, Text, same, same_iff,
}
use hermitstash_sync.StateDb.Rows.{
  Row, Status, Files, get_file, write_row, update_file_status, remove_file,
}

-- After an upsert its own path holds the new row, and every other path the row that it had.
pub get_file-write_row :
    (path : Text) (new : Row) (files : Files)
    → get_file path (write_row new files)
      ≡ (if same new.relative_path path then some new else get_file path files)
unfolding get_file write_row
get_file-write_row path new [] = refl
get_file-write_row path new (row ∷ files) = ground (
  arith,
  same_iff row.relative_path new.relative_path,
  same_iff row.relative_path path,
  same_iff new.relative_path path,
  get_file-write_row path new files,
)

pub get_file-remove_file :
    (path gone : Text) (files : Files)
    → get_file path (remove_file gone files)
      ≡ (if same gone path then none else get_file path files)
unfolding get_file remove_file
get_file-remove_file path gone [] = ground arith
get_file-remove_file path gone (row ∷ files) = ground (
  arith,
  same_iff row.relative_path gone,
  same_iff row.relative_path path,
  same_iff gone path,
  get_file-remove_file path gone files,
)

abbrev pub with_status : Status → Option Row → Option Row
with_status status none = none
with_status status (some row) = some (record row { status = status })

pub get_file-update_file_status :
    (path at : Text) (status : Status) (files : Files)
    → get_file path (update_file_status at status files)
      ≡ (if same at path then with_status status (get_file path files) else get_file path files)
unfolding get_file update_file_status
get_file-update_file_status path at status [] = ground arith
get_file-update_file_status path at status (row ∷ files) = ground (
  arith,
  same_iff row.relative_path at,
  same_iff row.relative_path path,
  same_iff at path,
  get_file-update_file_status path at status files,
)

-- What is found under a path carries that path.
pub relative_path-get_file :
    (path : Text) (files : Files) (row : Row)
    → get_file path files ≡ some row
    → row.relative_path ≡ path
unfolding get_file
relative_path-get_file path [] row h = ground arith
relative_path-get_file path (r ∷ files) row h =
    ground (arith, same_iff r.relative_path path, relative_path-get_file path files row)

pub ruleset table_laws = (get_file-write_row, get_file-remove_file, get_file-update_file_status)
