-- ===== src/Tests/Host.antt =====
-- A concrete host, an engine in catch-up with one tracked file, and events for it.
use hermitstash_sync.Prelude.{
  true, false, none, some, [], ◌∷◌, ◌++◌, if◌then◌else◌, Text, codes, same,
}
use hermitstash_sync.Transfer.{File, Response, body, refused}
use hermitstash_sync.StateDb.Rows.{Row, synced}
use hermitstash_sync.Engine.State.{Engine, World, catching_up, accepted}
use hermitstash_sync.Engine.Inbound.Gate.{FileEvent}

abbrev pub notes : Text
notes = codes "a.md"

abbrev pub draft : Text
draft = codes "b.md"

-- The server sends 30 bytes with the digest 7 for every id.
abbrev pub answer : Response
answer = body record {
  declared = some 30;
  chunks = 10 ∷ 20 ∷ [];
  digest = 7;
  broken = false;
  replaced = true;
  now = 99;
}

abbrev pub copy_of : Text → Text
copy_of path = path ++ codes ".conflict"

-- An edit of the tracked file that the server does not have.
abbrev pub edited : File
edited = record { digest = 4; bytes = 12; hashable = true; mtime = 2 }

-- A host that does not fold case, whose file operations succeed.
abbrev pub linux : World
linux = record {
  runtime = record { nfc = λ t. t; lower = λ t. t; sep = b'/' };
  nocase = λ t. t;
  fs_case_folds = false;
  disk_key = λ t. t;
  include = [];
  ignore = [];
  safe_path = λ t. true;
  safe_local_path = λ t. true;
  valid_name = λ t. true;
  conflict_path = copy_of;
  temp_path = λ t. t ++ codes ".tmp.1";
  rename_ok = λ from to. true;
  mkdir_ok = λ t. true;
  unlink_result = λ t i. none;
  respond = λ id. answer;
  delete_ok = λ id. true;
  upload = λ t. accepted (record { file_id = some 1; checksum = some 4; seq = 9 });
  rename_on_server = λ from to. some 9;
  after_upload = λ t. some edited;
  root_readable = true;
  interrupted = false;
  pool_busy = false;
  free_space = none;
  max_file_bytes = 1000;
  max_sync_file_bytes = 1000;
  now = codes "2026-01-01";
  now_ms = 5;
}

-- The same host where no directory can be made.
abbrev pub blocked : World
blocked = record linux { mkdir_ok = λ t. false }

-- The same host, which answers no download.
abbrev pub unanswered : World
unanswered = record linux { respond = λ id. refused }

abbrev pub notes_row : Row
notes_row = record {
  relative_path = notes;
  server_file_id = some 1;
  local_checksum = some 3;
  server_checksum = some 3;
  local_mtime = some 1;
  size = some 10;
  server_seq = 2;
  status = synced;
  needs_bytes = 0;
}

abbrev pub idle : Engine
idle = record {
  state = catching_up;
  stopped = false;
  resyncing = false;
  has_http = true;
  has_ws = true;
  ws_since = 0;
  db = record { files = notes_row ∷ []; sync_state = [] };
  disk = λ key. if same notes key then some edited else none;
  held = λ key. 0;
  active_ops = 0;
  active_downloads = 0;
  catch_up_pending = 0;
  caught_up = false;
  catch_up_tip = 0;
  lowest_unapplied = 0;
  permanent_failures = [];
  pending_deletes = [];
  sent = [];
}

-- The server's next version of the tracked file.
abbrev pub next_version : FileEvent
next_version = record {
  file_id = some 1;
  relative_path = notes;
  checksum = some 7;
  size = some 30;
  seq = 5;
}

-- Its rename, without a digest.
abbrev pub to_draft : FileEvent
to_draft = record { file_id = some 1; relative_path = draft; checksum = none; size = none; seq = 6 }
