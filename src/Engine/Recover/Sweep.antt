-- ===== src/Engine/Recover/Sweep.antt =====
-- lib/sync-engine.js: _recoverPending, the whole sweep: uploads, deletes, downloads, and the redial out
-- of a wedged catch-up.
use hermitstash_sync.Prelude.{not, ◌||◌, if◌then◌else◌}
use hermitstash_sync.Engine.State.{Engine, World}
use hermitstash_sync.Engine.Cursor.{maybe_recover_catch_up_wedge}
use hermitstash_sync.Engine.Recover.{unfinished_rows, recover_rows, recover_pending_deletes}
use hermitstash_sync.Engine.Recover.Uploads.{recover_pending_uploads}

-- `_recoverPending`: the rows of downloads are read before the uploads and the deletes.
unfoldable pub recover_pending : World → Engine → Engine
recover_pending w e =
    let rows = unfinished_rows e.db.files in
    let (landed, e') =
      recover_rows w rows (recover_pending_deletes w (recover_pending_uploads w e)) in
    if e.stopped || e.resyncing || not e.has_http then e else maybe_recover_catch_up_wedge landed e'
