-- ===== src/Engine/Local/Delete.antt =====
-- lib/sync-engine.js: local deletes, which wait for a rename to claim them, and the request that one
-- becomes when its timer fires.
use hermitstash_sync.Prelude.{
  ℕ, Bool, false, not, ◌&&◌, ◌||◌, Option, none, some, List, [], ◌∷◌, ◌++◌, if◌then◌else◌, is_some,
  or_else, Text, same, is_empty,
}
use hermitstash_sync.StateDb.Rows.{Row, pending_delete}
use hermitstash_sync.Engine.State.{
  Engine, World, Pending, delete_request, identity_key, on_disk, lookup_tracked, forget, mark,
  is_disconnected,
}
use hermitstash_sync.Engine.Suppress.{is_suppressed}

-- `Map.set` and `Map.delete` on `_pendingDeletes`: an entry that is set again keeps its place.
unfoldable pub set_pending : Text → Pending → List (Text × Pending) → List (Text × Pending)
set_pending path pending [] = (path, pending) ∷ []
set_pending path pending ((p, old) ∷ rest) =
    if same p path then (p, pending) ∷ rest else (p, old) ∷ set_pending path pending rest

unfoldable pub drop_pending : Text → List (Text × Pending) → List (Text × Pending)
drop_pending path [] = []
drop_pending path ((p, old) ∷ rest) =
    let kept = drop_pending path rest in if same p path then kept else (p, old) ∷ kept

unfoldable pub get_pending : Text → List (Text × Pending) → Option Pending
get_pending path [] = none
get_pending path ((p, pending) ∷ rest) = if same p path then some pending else get_pending path rest

abbrev pub pending_of : Row → Pending
pending_of row = record {
  checksum = or_else row.local_checksum row.server_checksum;
  size = row.size;
  file_id = row.server_file_id;
  existing = row;
}

-- `_handleLocalDelete`
unfoldable pub handle_local_delete : World → Text → Engine → Engine
handle_local_delete w relative_path e =
    let path = identity_key w relative_path in
    if not w.root_readable then e else elim (lookup_tracked w path e) [
      | none ↦ forget path e
      | some row ↦
          if is_some row.server_file_id
          then record e { pending_deletes = set_pending path (pending_of row) e.pending_deletes }
          else forget row.relative_path e
    ]

-- What became of the request to delete a file on the server.
pub data Outcome : Type 0 where
  deleted skipped failed : Outcome

abbrev pub target_of : World → Text → Row → Engine → Row
target_of w path existing e = elim (lookup_tracked w path e) [ some row ↦ row | none ↦ existing ]

abbrev pub delete_key : Text → Row → Text
delete_key path target = if is_empty target.relative_path then path else target.relative_path

-- `this._http.deleteFile` and what the row becomes.
unfoldable pub send_delete : World → Text → ℕ → Engine → Outcome × Engine
send_delete w key id e =
    let e' = record e { sent = e.sent ++ (delete_request id ∷ []) } in
    if w.delete_ok id then (deleted, forget key e') else (failed, mark key pending_delete e')

-- The file is back on the disk, which only counts outside the fallback of a rename.
abbrev pub is_back : World → Text → Bool → Engine → Bool
is_back w path rename_fallback e =
    not rename_fallback && w.safe_local_path path && is_some (on_disk w e path)

-- `_executeDeleteLocked`
unfoldable pub execute_delete_locked : World → Text → Row → Bool → Engine → Outcome × Engine
execute_delete_locked w path existing rename_fallback e =
    let target = target_of w path existing e in
    if is_disconnected e.state || e.resyncing || not e.has_http
    then (skipped, e)
    else if is_suppressed w path e
    then (skipped, e)
    else if not w.root_readable
    then (skipped, e)
    else elim target.server_file_id [
      | none ↦ (skipped, e)
      | some id ↦
          if is_back w path rename_fallback e
          then (skipped, e)
          else if not (is_some target.local_checksum)
          then (skipped, e)
          else send_delete w (delete_key path target) id e
    ]

-- `_executeDelete`
unfoldable pub execute_delete : World → Text → Row → Bool → Engine → Outcome × Engine
execute_delete w path existing rename_fallback e =
    if is_suppressed w path e
    then (skipped, e)
    else execute_delete_locked w path existing rename_fallback e

-- The timer of a buffered delete: there is one for each entry, with the row of that entry.
unfoldable pub fire_delete : World → Text → Engine → Engine
fire_delete w path e = elim (get_pending path e.pending_deletes) [
  | none ↦ e
  | some pending ↦
      (execute_delete w path pending.existing false
        (record e { pending_deletes = drop_pending path e.pending_deletes })).1
]
