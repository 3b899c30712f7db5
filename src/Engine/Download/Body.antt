-- ===== src/Engine/Download/Body.antt =====
-- The `try` block of a download, by the answer of the server.
use hermitstash_sync.Prelude.{
  ℕ, ◌≡◌, ◌⊎◌, refl, true, false, ◌||◌, Option, some, arith, is_some, Text, same, same_refl,
}
use hermitstash_sync.StateDb.Rows.{Row, get_file, error as error_row}
use hermitstash_sync.StateDb.Laws.{get_file-write_row, get_file-update_file_status}
use hermitstash_sync.Transfer.{File, Fetch, landed, failed, download_file}
use hermitstash_sync.Engine.State.{Engine, World, put_disk}
use hermitstash_sync.Engine.Cursor.{last_seq}
use hermitstash_sync.Engine.Download.{download_body, short_row, landed_row, wanted_size}

-- What a download that did not complete leaves of a row: the server's view and the local digest, with
-- the row in ERROR or its status as it was.
pub record IsUndone (before after : Row) : Type 0 where
  pub file_id : after.server_file_id ≡ before.server_file_id
  pub server_checksum : after.server_checksum ≡ before.server_checksum
  pub local_checksum : after.local_checksum ≡ before.local_checksum
  pub status : (after.status ≡ error_row) ⊎ (after.status ≡ before.status)

module _ (w : World) (path : Text) (file_id : Option ℕ) (expected size : Option ℕ) where
  abbrev pub fetched : Fetch
  fetched = download_file w.max_file_bytes (w.respond file_id) expected (wanted_size size)

  module _ (e : Engine) where
    abbrev pub after_body : Engine
    after_body = (download_body w path file_id expected size e).1

    -- What is left of a body that returned true, once its answer is known.
    pub body_of_fetch :
        (r : Fetch)
        → fetched ≡ r
        → (download_body w path file_id expected size e).0 ≡ true
        → (file : File) × (fetched ≡ landed file)
          × (after_body.disk (w.disk_key path) ≡ some file)
          × (get_file path after_body.db.files
              ≡ some (landed_row path expected file (get_file path e.db.files)))
    unfolding download_body put_disk
    body_of_fetch (failed permanent) r h = absurd (ground arith)
    body_of_fetch (landed file) r h = (
      file,
      r,
      ground (arith, same_refl (w.disk_key path)),
      ground (
        arith,
        same_refl path,
        get_file-write_row path (landed_row path expected file (get_file path e.db.files))
            e.db.files,
      ),
    )

    -- A body changes no other entry of the disk and no other row, and holds what it held.
    pub body_elsewhere :
        (key : Text) → same (w.disk_key path) key ≡ false → after_body.disk key ≡ e.disk key
    unfolding download_body put_disk
    body_elsewhere key ne = ground arith

    body_other_row_of_fetch :
        (other : Text) (r : Fetch)
        → fetched ≡ r
        → same path other ≡ false
        → get_file other after_body.db.files ≡ get_file other e.db.files
    unfolding download_body put_disk
    body_other_row_of_fetch other (failed permanent) r ne = ground (
      arith,
      get_file-update_file_status other path error_row e.db.files,
      get_file-write_row other (short_row path (wanted_size size) (get_file path e.db.files))
          e.db.files,
    )
    body_other_row_of_fetch other (landed file) r ne = ground (
      arith,
      get_file-update_file_status other path error_row e.db.files,
      get_file-write_row other (short_row path (wanted_size size) (get_file path e.db.files))
          e.db.files,
      get_file-write_row other (landed_row path expected file (get_file path e.db.files))
          e.db.files,
    )

    pub body_other_row :
        (other : Text)
        → same path other ≡ false
        → get_file other after_body.db.files ≡ get_file other e.db.files
    body_other_row other = body_other_row_of_fetch other fetched refl

    pub held-body : after_body.held ≡ e.held
    unfolding download_body put_disk
    held-body = ground arith

    pub body_failed :
        (r : Fetch) (row : Row)
        → fetched ≡ r
        → (w.interrupted || e.resyncing || e.stopped) ≡ false
        → (download_body w path file_id expected size e).0 ≡ false
        → get_file path after_body.db.files ≡ some row
        → row.status ≡ error_row
    unfolding download_body put_disk
    body_failed (landed file) row r uncut h found = ground (
      arith,
      same_refl path,
      get_file-update_file_status path path error_row e.db.files,
      get_file-write_row path (short_row path (wanted_size size) (get_file path e.db.files))
          e.db.files,
    )
    body_failed (failed permanent) row r uncut h found = ground (
      arith,
      same_refl path,
      get_file-update_file_status path path error_row e.db.files,
      get_file-write_row path (short_row path (wanted_size size) (get_file path e.db.files))
          e.db.files,
    )

    pub cursor_body :
        (last_seq after_body ≡ last_seq e)
        × (after_body.lowest_unapplied ≡ e.lowest_unapplied)
        × (after_body.resyncing ≡ e.resyncing)
        × (after_body.stopped ≡ e.stopped)
        × (after_body.catch_up_pending ≡ e.catch_up_pending)
        × (after_body.state ≡ e.state)
    unfolding download_body put_disk
    cursor_body = ground arith

    pub body-IsUndone :
        (r : Fetch) (before after : Row)
        → fetched ≡ r
        → (download_body w path file_id expected size e).0 ≡ false
        → get_file path e.db.files ≡ some before
        → get_file path after_body.db.files ≡ some after
        → IsUndone before after
    unfolding download_body put_disk
    body-IsUndone (landed file) before after r h had has = ground (
      arith,
      same_refl path,
      get_file-update_file_status path path error_row e.db.files,
      get_file-write_row path (short_row path (wanted_size size) (get_file path e.db.files))
          e.db.files,
    )
    body-IsUndone (failed permanent) before after r h had has = ground (
      arith,
      same_refl path,
      get_file-update_file_status path path error_row e.db.files,
      get_file-write_row path (short_row path (wanted_size size) (get_file path e.db.files))
          e.db.files,
    )

    pub body_still :
        (r : Fetch)
        → fetched ≡ r
        → (download_body w path file_id expected size e).0 ≡ false
        → is_some (get_file path e.db.files) ≡ true
        → is_some (get_file path after_body.db.files) ≡ true
    unfolding download_body put_disk
    body_still (landed file) r h had = ground (
      arith,
      same_refl path,
      get_file-update_file_status path path error_row e.db.files,
      get_file-write_row path (short_row path (wanted_size size) (get_file path e.db.files))
          e.db.files,
    )
    body_still (failed permanent) r h had = ground (
      arith,
      same_refl path,
      get_file-update_file_status path path error_row e.db.files,
      get_file-write_row path (short_row path (wanted_size size) (get_file path e.db.files))
          e.db.files,
    )
