-- ===== src/Engine/State.antt =====
-- lib/sync-engine.js: the fields of `SyncEngine`, the disk under its sync folder, and what the
-- engine takes from the file system, the server and the vendored framework.
use hermitstash_sync.Prelude.{
  ℕ, Bool, true, false, Option, none, some, List, if◌then◌else◌, Text, same,
}
use hermitstash_sync.StateDb.Rows.{
  Row, Status, Files, blank, get_file_folded, write_row, update_file_status, remove_file,
}
use hermitstash_sync.StateDb.Meta.{Db}
use hermitstash_sync.Transfer.{File, Response}
use hermitstash_sync.PathFilter.{Runtime}

-- SYNC_STATE of lib/constants.js.
pub data SyncState : Type 0 where
  disconnected connecting catching_up synced uploading downloading error reconnecting : SyncState

abbrev pub is_catching_up : SyncState → Bool
is_catching_up catching_up = true
is_catching_up _ = false

abbrev pub is_disconnected : SyncState → Bool
is_disconnected disconnected = true
is_disconnected _ = false

-- The files under the sync folder, by the identity of their names on the volume.
abbrev pub Disk : Type 0
Disk = Text → Option File

-- What a request to the server was about, in the order of sending.
pub data Request : Type 0 where
  delete_request : ℕ → Request
  ack : ℕ → Request

-- An entry of `_pendingDeletes`; its timer is the environment's.
pub record Pending : Type 0 where
  pub checksum : Option ℕ
  pub size : Option ℕ
  pub file_id : Option ℕ
  pub existing : Row

pub record Engine : Type 0 where
  pub state : SyncState
  pub stopped : Bool
  pub resyncing : Bool
  pub has_http : Bool
  pub has_ws : Bool
  pub ws_since : ℕ
  pub db : Db
  pub disk : Disk
  pub held : Text → ℕ  -- `_downloadingPaths`; 0 is no entry
  pub active_ops : ℕ
  pub active_downloads : ℕ
  pub catch_up_pending : ℕ
  pub caught_up : Bool  -- `_caughtUpAtSeq`
  pub catch_up_tip : ℕ
  pub lowest_unapplied : ℕ
  pub permanent_failures : List Text
  pub pending_deletes : List (Text × Pending)
  pub sent : List Request

-- How an upload ends, after its retries and the circuit breaker: the server's answer, a rejection that
-- no retry mends, or a failure.
pub record Receipt : Type 0 where
  pub file_id : Option ℕ
  pub checksum : Option ℕ
  pub seq : ℕ

pub data Upload : Type 0 where
  accepted : Receipt → Upload
  rejected unsent : Upload

-- The surroundings of one step: the configuration, the vendored framework, the file system's and the
-- server's answers, and the clock. A step is given its own.
pub record World : Type 0 where
  pub runtime : Runtime
  pub nocase : Text → Text  -- SQLite's NOCASE folding
  pub fs_case_folds : Bool
  pub disk_key : Text → Text  -- the identity of a name on the volume
  pub include : List Text
  pub ignore : List Text
  pub safe_path : Text → Bool  -- b.safePath with the Windows names refused
  pub safe_local_path : Text → Bool  -- b.safePath of the host
  pub valid_name : Text → Bool  -- b.guardFilename.verifyExtractionPath
  pub conflict_path : Text → Text  -- b.atomicFile.conflictPath
  pub temp_path : Text → Text  -- the name with a random `.tmp.` suffix
  pub rename_ok : Text → Text → Bool  -- b.atomicFile.renameWithRetry does not throw
  pub mkdir_ok : Text → Bool  -- the parent directory is there or can be made
  pub unlink_result : Text → ℕ → Option Text  -- the error code of an attempt, if it fails
  pub respond : Option ℕ → Response  -- the answer to a download of a server id
  pub delete_ok : ℕ → Bool  -- the server deletes a server id
  pub upload : Text → Upload  -- the answer to an upload of a path
  pub rename_on_server : Text → Text → Option ℕ  -- the event's number; `none` is an error
  pub after_upload : Text → Option File  -- what is at the path when its upload is done
  pub root_readable : Bool
  pub interrupted : Bool  -- stop() or resync() came during a transfer
  pub pool_busy : Bool  -- the upload pool has a task in flight or queued
  pub free_space : Option ℕ  -- `none` is Infinity
  pub max_file_bytes : ℕ  -- the client's cap
  pub max_sync_file_bytes : ℕ  -- MAX_SYNC_FILE_BYTES
  pub now : Text  -- an ISO instant
  pub now_ms : ℕ

-- MIN_FREE_DISK_BYTES: 100 MiB.
abbrev pub min_free_disk_bytes : ℕ
min_free_disk_bytes = 104857600

-- `canonRelPath`, `_identityKey`
abbrev pub identity_key : World → Text → Text
identity_key w path = w.runtime.nfc path

-- `nodeFs.existsSync`, `hashFile` with its errors as `none`, and writes of one entry.
unfoldable pub on_disk : World → Engine → Text → Option File
on_disk w e path = e.disk (w.disk_key path)

abbrev pub hash_of : Option File → Option ℕ
hash_of none = none
hash_of (some file) = if file.hashable then some file.digest else none

unfoldable pub put_disk : World → Text → Option File → Engine → Engine
put_disk w path file e = record e {
  disk = λ key. if same (w.disk_key path) key then file else e.disk key;
}

-- A rename replaces what is at the destination; one onto the same entry changes nothing.
unfoldable pub move_disk : World → Text → Text → Engine → Engine
move_disk w from to e = record e {
  disk = λ key.
      if same (w.disk_key to) key
      then e.disk (w.disk_key from)
      else if same (w.disk_key from) key
      then none
      else e.disk key;
}

abbrev pub set_files : Files → Engine → Engine
set_files files e = record e { db = record e.db { files = files } }

-- `stateDb.upsertFile` on a row whose path is not empty, `updateFileStatus`, `removeFile`.
abbrev pub upsert : Row → Engine → Engine
upsert row e = set_files (write_row row e.db.files) e

abbrev pub mark : Text → Status → Engine → Engine
mark path status e = set_files (update_file_status path status e.db.files) e

abbrev pub forget : Text → Engine → Engine
forget path e = set_files (remove_file path e.db.files) e

-- `_lookupTracked`
abbrev pub lookup_tracked : World → Text → Engine → Option Row
lookup_tracked w path e = get_file_folded w.nocase (identity_key w path) w.fs_case_folds e.db.files

-- `{ ...existing, relativePath }`: a row that is not there has no field.
abbrev pub row_or_blank : Text → Option Row → Row
row_or_blank path none = blank path
row_or_blank path (some row) = record row { relative_path = path }

abbrev pub server_checksum_of : Option Row → Option ℕ
server_checksum_of none = none
server_checksum_of (some row) = row.server_checksum
