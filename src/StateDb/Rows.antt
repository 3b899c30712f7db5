-- ===== src/StateDb/Rows.antt =====
-- lib/state-db.js: the table `files`.
use hermitstash_sync.Prelude.{
  ℕ, Bool, true, false, Option, none, some, List, [], ◌∷◌, if◌then◌else◌, Text, same, is_empty,
  keep_if,
}

-- FILE_STATUS of lib/constants.js.
pub data Status : Type 0 where
  synced pending_upload pending_download pending_delete uploading downloading conflict error :
      Status

-- `row.status === status`
abbrev pub is_status : Status → Status → Bool
is_status synced synced = true
is_status pending_upload pending_upload = true
is_status pending_download pending_download = true
is_status pending_delete pending_delete = true
is_status uploading uploading = true
is_status downloading downloading = true
is_status conflict conflict = true
is_status error error = true
is_status _ _ = false

-- A row. Digests and server ids are opaque numbers; null is `none`.
pub record Row : Type 0 where
  pub relative_path : Text
  pub server_file_id : Option ℕ
  pub local_checksum : Option ℕ
  pub server_checksum : Option ℕ
  pub local_mtime : Option ℕ
  pub size : Option ℕ
  pub server_seq : ℕ
  pub status : Status
  pub needs_bytes : ℕ

abbrev pub Files : Type 0
Files = List Row

-- A row of which only the path is given: the defaults of the schema.
abbrev pub blank : Text → Row
blank path = record {
  relative_path = path;
  server_file_id = none;
  local_checksum = none;
  server_checksum = none;
  local_mtime = none;
  size = none;
  server_seq = 0;
  status = synced;
  needs_bytes = 0;
}

-- SELECT * FROM files WHERE relativePath = ?
unfoldable pub get_file : Text → Files → Option Row
get_file path [] = none
get_file path (row ∷ files) = if same row.relative_path path then some row else get_file path files

-- SELECT * FROM files WHERE relativePath = ? COLLATE NOCASE, with `nocase` the folding of ASCII case.
unfoldable pub get_file_nocase : (Text → Text) → Text → Files → Option Row
get_file_nocase nocase path [] = none
get_file_nocase nocase path (row ∷ files) =
    if same (nocase row.relative_path) (nocase path)
    then some row
    else get_file_nocase nocase path files

-- `getFileFolded`: the exact row first, and another casing only on a volume that folds case.
unfoldable pub get_file_folded : (Text → Text) → Text → Bool → Files → Option Row
get_file_folded nocase path folded files = elim (get_file path files) [
  | some row ↦ some row
  | none ↦ if folded then get_file_nocase nocase path files else none
]

unfoldable pub get_files_by_status : Status → Files → List Row
get_files_by_status status files = keep_if (λ row. is_status row.status status) files

-- INSERT INTO files … ON CONFLICT(relativePath) DO UPDATE SET every other column.
unfoldable pub write_row : Row → Files → Files
write_row new [] = new ∷ []
write_row new (row ∷ files) =
    if same row.relative_path new.relative_path then new ∷ files else row ∷ write_row new files

-- `upsertFile`: `none` is its TypeError for a row with no path.
unfoldable pub upsert_file : Row → Files → Option Files
upsert_file new files = if is_empty new.relative_path then none else some (write_row new files)

-- UPDATE files SET status = ? WHERE relativePath = ?
unfoldable pub update_file_status : Text → Status → Files → Files
update_file_status path status [] = []
update_file_status path status (row ∷ files) =
    (if same row.relative_path path then record row { status = status } else row)
    ∷ update_file_status path status files

-- DELETE FROM files WHERE relativePath = ?
unfoldable pub remove_file : Text → Files → Files
remove_file path [] = []
remove_file path (row ∷ files) =
    let rest = remove_file path files in if same row.relative_path path then rest else row ∷ rest

-- `renameFile`: the two statements of one transaction, and whether it threw. The ROLLBACK after a
-- throw of `upsertFile` restores the table as it was.
unfoldable pub rename_file : Text → Row → Files → Files × Bool
rename_file old_path new_row files = elim (upsert_file new_row (remove_file old_path files)) [
  | some files' ↦ (files', false)
  | none ↦ (files, true)
]
