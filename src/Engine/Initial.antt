-- ===== src/Engine/Initial.antt =====
-- lib/sync-engine.js: _initialSync and _scanLocalForUpload, the first meeting of the folder and the
-- bundle. A name on the disk is spelled canonically; the upload pool runs a task at once.
pub mod Keeps
use hermitstash_sync.Prelude.{
  ℕ, Bool, true, false, not, ◌&&◌, ◌||◌, Option, none, some, List, [], ◌∷◌, if◌then◌else◌, is_some,
  same_value, any, keep_if, map, Text, same,
}
use hermitstash_sync.Transfer.{File}
use hermitstash_sync.StateDb.Rows.{Row, blank, get_file, pending_download, synced as synced_row}
use hermitstash_sync.Engine.State.{
  Engine, World, error, identity_key, on_disk, hash_of, upsert, row_or_blank,
}
use hermitstash_sync.Engine.Cursor.{set_state}
use hermitstash_sync.Engine.Conflict.{maybe_save_conflict_copy}
use hermitstash_sync.Engine.Download.{download_path}
use hermitstash_sync.Engine.Inbound.Gate.{FileEvent, in_sync_scope, valid_server_path}
use hermitstash_sync.Engine.Local.Upload.{upload_file}
use hermitstash_sync.Engine.Local.Modify.{queued_row, is_unchanged}
use hermitstash_sync.Engine.Walk.{Folder, walk_dir}

-- The answer to getBundleMetadata: the files of the bundle, a denial (HTTP 401 or 403), or another
-- failure. A file has the fields of an event; a bundle without a list of files has none.
pub data Metadata : Type 0 where
  bundle : List FileEvent → Metadata
  denied failed : Metadata

abbrev pub matched_row : Text → FileEvent → Option ℕ → Option Row → Row
matched_row path file local existing = record (row_or_blank path existing) {
  server_file_id = file.file_id;
  local_checksum = local;
  server_checksum = file.checksum;
  size = file.size;
  server_seq = file.seq;
  status = synced_row;
}

abbrev pub wanted_row : Text → FileEvent → Row
wanted_row path file = record (blank path) {
  server_file_id = file.file_id;
  server_checksum = file.checksum;
  size = file.size;
  server_seq = file.seq;
  status = pending_download;
}

-- The digest that was taken before the loop; a file that was not hashed has none.
abbrev pub local_hash : World → Engine → Text → Option ℕ
local_hash w before path = if w.safe_path path then hash_of (on_disk w before path) else none

unfoldable pub fetch_file : World → Text → FileEvent → Option ℕ → Engine → Engine
fetch_file w path file local e =
    let copied =
      if is_some local && not (same_value local file.checksum)
      then maybe_save_conflict_copy w path file.checksum none e
      else e in
    (download_path w path file.file_id file.checksum file.size
      (upsert (wanted_row path file) copied)).1

-- The path of a file of the bundle, with the digest of what was there.
unfoldable pub initial_named : World → Text → FileEvent → Option ℕ → Engine → Engine
initial_named w path file local e =
    if not (w.safe_path path)
    then e
    else if not (valid_server_path w path)
    then e
    else if is_some local && same_value local file.checksum
    then upsert (matched_row path file local (get_file path e.db.files)) e
    else fetch_file w path file local e

-- One file of the bundle.
unfoldable pub initial_file : World → Engine → FileEvent → Engine → Engine
initial_file w before file e =
    let path = identity_key w file.relative_path in
    initial_named w path file (local_hash w before path) e

unfoldable pub initial_files : World → Engine → List FileEvent → Engine → Engine
initial_files w before [] e = e
initial_files w before (file ∷ files) e =
    initial_files w before files (initial_file w before file e)

abbrev is_none : List Text → Bool
is_none [] = true
is_none (p ∷ ps) = false

unfoldable pub files_in_scope : World → List FileEvent → List FileEvent
files_in_scope w files =
    if is_none w.include && is_none w.ignore
    then files
    else keep_if (λ f. in_sync_scope w f.relative_path) files

-- The files of the walk that the bundle does not list.
unfoldable pub to_upload : World → Engine → List Text → List Text → List (Text × File)
to_upload w e server_paths [] = []
to_upload w e server_paths (p ∷ ps) =
    let path = identity_key w p in
    let others = to_upload w e server_paths ps in
    if not (in_sync_scope w path)
    then others
    else if any (same path) server_paths
    then others
    else elim (on_disk w e path) [ none ↦ others | some file ↦ (path, file) ∷ others ]

-- One of them, with the digest that it had when the scan began.
unfoldable pub scan_upload : World → Text × File → Engine → Engine
scan_upload w (path, file) e = elim (hash_of (some file)) [
  | none ↦ e
  | some checksum ↦
      let existing = get_file path e.db.files in
      let queued = queued_row path checksum file.bytes (some file.mtime) existing in
      if is_unchanged checksum existing
      then e
      else upload_file w path (some checksum) (upsert queued e)
]

unfoldable pub scan_uploads : World → List (Text × File) → Engine → Engine
scan_uploads w [] e = e
scan_uploads w (f ∷ fs) e = scan_uploads w fs (scan_upload w f e)

-- `_scanLocalForUpload`; a walk that throws ends the initial sync, as what it did so far stays.
unfoldable pub scan_local_for_upload : World → Folder → List FileEvent → Engine → Engine
scan_local_for_upload w root files e =
    let server_paths = map (λ (f : FileEvent). identity_key w f.relative_path) files in
    elim (walk_dir w [] root) [
      | none ↦ e
      | some ps ↦ scan_uploads w (to_upload w e server_paths ps) e
    ]

-- `_initialSync`; `root` is what the walk finds after the downloads.
unfoldable pub initial_sync : World → Metadata → Folder → Engine → Engine
initial_sync w (bundle all_files) root e =
    let files = files_in_scope w all_files in
    scan_local_for_upload w root files (initial_files w e files e)
initial_sync w denied root e = set_state error e
initial_sync w failed root e = e
