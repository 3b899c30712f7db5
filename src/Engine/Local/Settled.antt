-- ===== src/Engine/Local/Settled.antt =====
-- The row that an upload leaves, by what is at its path when it is done.
use hermitstash_sync.Prelude.{
  ℕ, ◌≡◌, refl, Option, none, some, arith, if◌then◌else◌, same_value, Text, same_refl,
}
use hermitstash_sync.Transfer.{File}
use hermitstash_sync.StateDb.Rows.{Row, get_file}
use hermitstash_sync.StateDb.Laws.{get_file-write_row, get_file-remove_file}
use hermitstash_sync.Engine.State.{Engine, World, Receipt, hash_of}
use hermitstash_sync.Engine.Local.Upload.{
  settle_found, changed_row, sent_row, undeleted_row, retract_upload,
}

module _ (w : World) (path : Text) (r : Receipt) (uploaded : Option ℕ) where
  -- The row of the path, by what is at the path when the upload is done.
  unfoldable pub settled_row : Option File → Option ℕ → Option Row → Option Row
  settled_row none none existing = some (changed_row path r uploaded none existing)
  settled_row none (some id) existing =
      if w.delete_ok id then none else some (undeleted_row path r id uploaded existing)
  settled_row (some file) id existing =
      if same_value (hash_of (some file)) uploaded
      then some (sent_row path r uploaded file)
      else some (changed_row path r uploaded (some file) existing)

  pub settle_row :
      (s : Engine) (now : Option File) (id : Option ℕ)
      → get_file path (settle_found w path r uploaded now id s).db.files
        ≡ settled_row now id (get_file path s.db.files)
  unfolding settle_found retract_upload settled_row
  settle_row s none none = ground (
    arith,
    same_refl path,
    get_file-write_row path (changed_row path r uploaded none (get_file path s.db.files))
        s.db.files,
  )
  settle_row s none (some id) = ground (
    arith,
    same_refl path,
    get_file-remove_file path path s.db.files,
    get_file-write_row path (undeleted_row path r id uploaded (get_file path s.db.files))
        s.db.files,
  )
  settle_row s (some file) id = ground (
    arith,
    same_refl path,
    get_file-write_row path (sent_row path r uploaded file) s.db.files,
    get_file-write_row path (changed_row path r uploaded (some file) (get_file path s.db.files))
        s.db.files,
  )

  pub settled_disk :
      (now : Option File) (id : Option ℕ) (s : Engine)
      → (settle_found w path r uploaded now id s).disk ≡ s.disk
  unfolding settle_found retract_upload
  settled_disk none none s = refl
  settled_disk none (some id) s = ground arith
  settled_disk (some file) id s = ground arith
