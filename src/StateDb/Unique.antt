-- ===== src/StateDb/Unique.antt =====
-- The primary key of the table `files`: at most one row for each path, kept by every write.
use hermitstash_sync.Prelude.{
  ◌≡◌, refl, true, false, none, some, [], ◌∷◌, arith, if◌then◌else◌, Text, same, same_iff, inl, inr,
  is_empty, ◌⊎◌, Bool-cases,
}
use hermitstash_sync.StateDb.Rows.{
  Row, Status, Files, get_file, write_row, update_file_status, remove_file, upsert_file,
  rename_file,
}
use hermitstash_sync.StateDb.Laws.{
  get_file-write_row, get_file-remove_file, get_file-update_file_status,
}

-- No two rows carry one path.
abbrev pub NodupKeys : Files → Type 0
NodupKeys [] = Unit
NodupKeys (row ∷ files) = (get_file row.relative_path files ≡ none) × NodupKeys files

pub write_row-NodupKeys :
    (new : Row) (files : Files) → NodupKeys files → NodupKeys (write_row new files)
unfolding write_row get_file
write_row-NodupKeys new [] h = (refl, tt)
write_row-NodupKeys new (row ∷ files) (fresh, h) = ground (
  arith,
  same_iff row.relative_path new.relative_path,
  same_iff new.relative_path row.relative_path,
  get_file-write_row row.relative_path new files,
  write_row-NodupKeys new files h,
)

pub remove_file-NodupKeys :
    (path : Text) (files : Files) → NodupKeys files → NodupKeys (remove_file path files)
unfolding remove_file
remove_file-NodupKeys path [] h = tt
remove_file-NodupKeys path (row ∷ files) (fresh, h) =
    ground
      (arith, get_file-remove_file row.relative_path path files, remove_file-NodupKeys path files h)

pub update_file_status-NodupKeys :
    (path : Text) (status : Status) (files : Files)
    → NodupKeys files
    → NodupKeys (update_file_status path status files)
unfolding update_file_status
update_file_status-NodupKeys path status [] h = tt
update_file_status-NodupKeys path status (row ∷ files) (fresh, h) = ground (
  arith,
  get_file-update_file_status row.relative_path path status files,
  update_file_status-NodupKeys path status files h,
)

pub rename_file-NodupKeys :
    (old : Text) (new : Row) (files : Files)
    → NodupKeys files
    → NodupKeys (rename_file old new files).0
unfolding rename_file upsert_file
rename_file-NodupKeys old new files h =
    ground
      (arith, write_row-NodupKeys new (remove_file old files) (remove_file-NodupKeys old files h))

-- A rename is all or nothing: it throws and leaves the table as it was when the new row has no path,
-- and otherwise the new path holds the new row, the old path (if it is another) holds none, and
-- every other path holds what it held.
pub rename_file_atomic :
    (old : Text) (new : Row) (files : Files)
    → let (files', threw) = rename_file old new files in
      ((is_empty new.relative_path ≡ true) × (threw ≡ true) × (files' ≡ files))
      ⊎ ((is_empty new.relative_path ≡ false)
          × (threw ≡ false)
          × ((path : Text)
              → get_file path files' ≡ (
                  if same new.relative_path path
                  then some new
                  else if same old path
                  then none
                  else get_file path files)))
unfolding rename_file upsert_file
rename_file_atomic old new files = elim (Bool-cases (is_empty new.relative_path)) [
  | inl bare ↦ inl (bare, ground arith, ground arith)
  | inr named ↦ inr (
    named,
    ground arith,
    λ path. ground (
      arith,
      get_file-write_row path new (remove_file old files),
      get_file-remove_file path old files,
    ),
  )
]
