-- ===== src/Engine/Recover/Beside.antt =====
-- What the steps of the sweep of uploads leave alone at another path.
use hermitstash_sync.Prelude.{
  ◌||◌, Option, none, some, List, [], ◌∷◌, Text, All, inl, inr, refl, Option-cases,
}
use hermitstash_sync.Transfer.{File}
use hermitstash_sync.StateDb.Rows.{Row}
use hermitstash_sync.Engine.State.{Engine, World, on_disk, hash_of, upsert}
use hermitstash_sync.Engine.Recover.Uploads.{
  recover_upload, recover_upload_found, recover_new, redrive_upload, for_rows, retried_row,
  landed_upload_row,
}
use hermitstash_sync.Engine.Recover.Aside.{
  IsApart, IsAside, nothing-IsAside, then-IsAside, if-IsAside, own_row-IsAside, upload_file-IsAside,
}

module _ (w : World) (path : Text) where
  module _ (row : Row) (apart : IsApart w path row.relative_path) where
    redrive_upload-IsAside :
        (file : File) (e : Engine) → IsAside w path e (redrive_upload w row file e)
    unfolding redrive_upload
    redrive_upload-IsAside file e = elim (Option-cases (hash_of (some file))) [
      | inl h ↦ rw (h, redrive_upload) (nothing-IsAside w path e)
      | inr (c, h) ↦
          rw (h, redrive_upload)
            (then-IsAside w path e (upsert (retried_row row file c) e) _
              (own_row-IsAside w path row.relative_path apart (retried_row row file c) e refl)
              (upload_file-IsAside w path row.relative_path apart (some c)
                (upsert (retried_row row file c) e)))
    ]

    recover_upload_found-IsAside :
        (file : File) (e : Engine) → IsAside w path e (recover_upload_found w row file e)
    unfolding recover_upload_found
    recover_upload_found-IsAside file e =
        if-IsAside w path _ e _ _
          (own_row-IsAside w path row.relative_path apart (landed_upload_row row) e refl)
          (if-IsAside w path _ e _ _ (nothing-IsAside w path e) (redrive_upload-IsAside file e))

    pub recover_upload-IsAside : (e : Engine) → IsAside w path e (recover_upload w row e)
    unfolding recover_upload
    recover_upload-IsAside e =
        if-IsAside w path _ e _ _ (nothing-IsAside w path e) (found (on_disk w e row.relative_path))
      where
        found :
            (o : Option File)
            → IsAside w path e (elim o [ none ↦ e | some file ↦ recover_upload_found w row file e ])
        found none = nothing-IsAside w path e
        found (some file) = recover_upload_found-IsAside file e

    pub recover_new-IsAside : (e : Engine) → IsAside w path e (recover_new w row e)
    unfolding recover_new
    recover_new-IsAside e =
        if-IsAside w path _ e _ _ (nothing-IsAside w path e) (found (on_disk w e row.relative_path))
      where
        found :
            (o : Option File)
            → IsAside w path e (elim o [ none ↦ e | some file ↦ redrive_upload w row file e ])
        found none = nothing-IsAside w path e
        found (some file) = redrive_upload-IsAside file e

  abbrev pub AllApart : List Row → Type 0
  AllApart rows = All (λ (row : Row). IsApart w path row.relative_path) rows

  pub for_rows-IsAside :
      (f : Row → Engine → Engine) (rows : List Row) (e : Engine)
      → ((row : Row) → IsApart w path row.relative_path → (e : Engine) → IsAside w path e (f row e))
      → AllApart rows
      → IsAside w path e (for_rows f rows e)
  unfolding for_rows
  for_rows-IsAside f [] e step apart = nothing-IsAside w path e
  for_rows-IsAside f (row ∷ rows) e step (one, rest) =
      if-IsAside w path (e.stopped || e.resyncing) e e _ (nothing-IsAside w path e) (
        then-IsAside w path e (f row e) _ (step row one e)
          (for_rows-IsAside f rows (f row e) step rest))
