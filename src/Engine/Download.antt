-- ===== src/Engine/Download.antt =====
-- lib/sync-engine.js: _downloadFile and its locked body. The per-path lock is not modelled: a
-- download is one step, and `interrupted` tells that stop() or resync() came while it streamed.
pub mod Frame
pub mod Body
pub mod Laws
pub mod Undone
use hermitstash_sync.Prelude.{
  ℕ, zero, suc, ◌+◌, ◌-◌, ◌*◌, ◌≤◌, ◌<◌, min, max, ◌≡◌, ◌≢◌, ◌↔◌, ◌⊎◌, inl, inr, refl, sym, ap,
  subst, ◌∙◌, Bool, true, false, not, ◌&&◌, ◌||◌, Option, none, some, List, [], ◌∷◌, ◌++◌, map,
  arith, ltb, leb, ◌==◌, ==_iff, if◌then◌else◌, Bool-cases, Option-cases, is_some, or_else,
  or_number, same_value, length, any, keep_if, All, Text, codes, same, same_iff, same_refl,
  is_empty, includes,
}
use hermitstash_sync.StateDb.Rows.{Row, get_file, synced as synced_row, error as error_row, Status}
use hermitstash_sync.Transfer.{File, Fetch, landed, failed, download_file}
use hermitstash_sync.Engine.State.{
  Engine, World, SyncState, downloading, is_catching_up, upsert, mark, row_or_blank, put_disk,
  min_free_disk_bytes, identity_key,
}
use hermitstash_sync.Engine.Suppress.{suppress, release}
use hermitstash_sync.Engine.Cursor.{set_state, maybe_mark_synced, maybe_finish_catch_up}

-- A `Set` of paths.
abbrev pub add_path : Text → List Text → List Text
add_path path paths = if any (same path) paths then paths else paths ++ (path ∷ [])

abbrev pub drop_path : Text → List Text → List Text
drop_path path paths = keep_if (λ p. not (same path p)) paths

abbrev pub add_failure : Text → Engine → Engine
add_failure path e = record e { permanent_failures = add_path path e.permanent_failures }

abbrev pub clear_failure : Text → Engine → Engine
clear_failure path e = record e { permanent_failures = drop_path path e.permanent_failures }

-- The size that the server declared, or 0.
abbrev pub wanted_size : Option ℕ → ℕ
wanted_size none = 0
wanted_size (some n) = n

-- `Number.isFinite(freeSpace) && freeSpace < need`
abbrev pub lacks : Option ℕ → ℕ → Bool
lacks none need = false
lacks (some free) need = ltb free need

-- A row that records what a download left on the disk.
abbrev pub landed_row : Text → Option ℕ → File → Option Row → Row
landed_row path expected file existing = record (row_or_blank path existing) {
  local_checksum = expected;
  local_mtime = some file.mtime;
  size = some file.bytes;
  status = synced_row;
  needs_bytes = 0;
}

-- A row that records the free space that its download needs.
abbrev pub short_row : Text → ℕ → Option Row → Row
short_row path wanted existing = record (row_or_blank path existing) {
  status = error_row;
  needs_bytes = wanted + min_free_disk_bytes;
}

-- After `this._http.downloadFile`, with its catch: the file is on the disk before the flags are read.
finish_fetch : World → Text → Option ℕ → Fetch → Engine → Bool × Engine
finish_fetch w path expected (failed permanent) e =
    let e' = mark path error_row e in (false, if permanent then add_failure path e' else e')
finish_fetch w path expected (landed file) e =
    let e' = put_disk w path (some file) e in
    if w.interrupted || e.resyncing || e.stopped then (false, e') else (
      true,
      clear_failure path (upsert (landed_row path expected file (get_file path e'.db.files)) e'),
    )

-- The `try` block with its `catch`.
unfoldable pub download_body :
    World → Text → Option ℕ → Option ℕ → Option ℕ → Engine → Bool × Engine
unfolding finish_fetch
download_body w path file_id expected size e =
    let wanted = wanted_size size in
    if ltb w.max_sync_file_bytes wanted
    then (false, add_failure path (mark path error_row e))
    else if ltb 0 wanted && lacks w.free_space (wanted + min_free_disk_bytes)
    then (false, upsert (short_row path wanted (get_file path e.db.files)) e)
    else if lacks w.free_space min_free_disk_bytes
    then (false, mark path error_row e)
    else finish_fetch w path expected
        (download_file w.max_file_bytes (w.respond file_id) expected wanted) e

-- What precedes the `try`, and the `finally`.
abbrev pub begin_transfer : World → Text → Engine → Engine
begin_transfer w path e =
    let e' = suppress w path e in
    let e'' = record e' {
      active_downloads = e'.active_downloads + 1;
      active_ops = e'.active_ops + 1;
    } in
    if is_catching_up e''.state then e'' else set_state downloading e''

abbrev pub end_transfer : World → Text → Engine → Engine
end_transfer w path e =
    let e' = release w path e in
    maybe_finish_catch_up w (
      maybe_mark_synced w.pool_busy
        (record e' { active_downloads = e'.active_downloads - 1; active_ops = e'.active_ops - 1 }))

-- `_downloadFileLocked`
unfoldable pub download_locked :
    World → Text → Option ℕ → Option ℕ → Option ℕ → Engine → Bool × Engine
download_locked w path file_id expected size e =
    let (done, e') = download_body w path file_id expected size (begin_transfer w path e) in
    (done, end_transfer w path e')

-- `_downloadFile`, `_downloadFileImpl`
unfoldable pub download_path :
    World → Text → Option ℕ → Option ℕ → Option ℕ → Engine → Bool × Engine
download_path w path file_id expected size e =
    if not (w.safe_path path) then (false, e) else download_locked w path file_id expected size e
