-- ===== src/Engine/Rescan.antt =====
-- lib/sync-engine.js: _localRescan, the walk that takes up what the watcher did not see. A name on the
-- disk is spelled canonically.
pub mod Laws
use hermitstash_sync.Prelude.{
  ℕ, Bool, true, false, not, ◌&&◌, ◌||◌, Option, none, some, List, [], ◌∷◌, if◌then◌else◌, is_some,
  any, Text, same,
}
use hermitstash_sync.Transfer.{File}
use hermitstash_sync.StateDb.Rows.{Row, get_files_by_status, synced as synced_row}
use hermitstash_sync.Engine.State.{Engine, World, identity_key, on_disk, hash_of, lookup_tracked}
use hermitstash_sync.Engine.Suppress.{is_suppressed}
use hermitstash_sync.Engine.Inbound.Gate.{in_sync_scope}
use hermitstash_sync.Engine.Local.Delete.{handle_local_delete}
use hermitstash_sync.Engine.Local.Modify.{Change, is_unchanged, handle_local_modify}
use hermitstash_sync.Engine.Walk.{Folder, walk_dir}

abbrev pub change_of : File → Change
change_of file = record { size = some file.bytes; mtime = some file.mtime }

-- A file of the walk.
unfoldable pub rescan_found : World → Text → File → Engine → Engine
rescan_found w path file e = elim (hash_of (some file)) [
  | none ↦ e
  | some checksum ↦
      if is_unchanged checksum (lookup_tracked w path e)
      then e
      else handle_local_modify w path (change_of file) e
]

-- One path of the walk: whether it is a file in scope that no transfer holds, and the engine after.
unfoldable pub rescan_path : World → Text → Engine → Bool × Engine
rescan_path w p e =
    let path = identity_key w p in
    if not (in_sync_scope w path) || is_suppressed w path e
    then (false, e)
    else elim (on_disk w e path) [
      | none ↦ (false, e)
      | some file ↦ (true, rescan_found w path file e)
    ]

-- The first loop: the paths that are there, and the engine after.
unfoldable pub rescan_paths : World → List Text → Engine → List Text × Engine
rescan_paths w [] e = ([], e)
rescan_paths w (p ∷ ps) e =
    let (seen, e') = rescan_path w p e in
    let (there, e'') = rescan_paths w ps e' in
    if e.stopped || e.resyncing
    then ([], e)
    else (if seen then identity_key w p ∷ there else there, e'')

-- A row of the second loop.
unfoldable pub rescan_row : World → List Text → Row → Engine → Engine
rescan_row w there row e =
    let path = identity_key w row.relative_path in
    if any (same path) there
    then e
    else if not (in_sync_scope w path) || is_suppressed w path e
    then e
    else if is_some (on_disk w e path)
    then e
    else handle_local_delete w path e

unfoldable pub rescan_rows : World → List Text → List Row → Engine → Engine
rescan_rows w there [] e = e
rescan_rows w there (row ∷ rows) e =
    let e' = rescan_rows w there rows (rescan_row w there row e) in
    if e.stopped || e.resyncing then e else e'

unfoldable pub rescan_walked : World → List Text → Engine → Engine
rescan_walked w ps e =
    let (there, e') = rescan_paths w ps e in
    rescan_rows w there (get_files_by_status synced_row e'.db.files) e'

-- `_localRescan`
unfoldable pub local_rescan : World → Folder → Engine → Engine
local_rescan w root e =
    if e.stopped || e.resyncing || not e.has_http
    then e
    else elim (walk_dir w [] root) [ none ↦ e | some ps ↦ rescan_walked w ps e ]
