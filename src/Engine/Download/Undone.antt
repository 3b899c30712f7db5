-- ===== src/Engine/Download/Undone.antt =====
-- What a download that did not complete leaves of the row it was for.
use hermitstash_sync.Prelude.{
  ℕ, ◌≡◌, inl, inr, refl, sym, ap, ◌∙◌, Bool, true, false, Option, some, arith, Bool-cases,
  Option-cases, is_some, Text,
}
use hermitstash_sync.StateDb.Rows.{Row, Files, get_file}
use hermitstash_sync.Engine.State.{Engine, World}
use hermitstash_sync.Engine.Download.{download_body}
use hermitstash_sync.Engine.Download.Body.{IsUndone, fetched, after_body, body-IsUndone, body_still}
use hermitstash_sync.Engine.Download.Frame.{begin_transfer-IsFramed}
use hermitstash_sync.Engine.Download.Laws.{
  downloaded, begun, downloaded_done, downloaded-IsFramed, downloaded_unsafe,
}

-- A row that was found again.
pub record IsLeft (path : Text) (before : Row) (files : Files) : Type 0 where
  pub row : Row
  pub found : get_file path files ≡ some row
  pub undone : IsUndone before row

module _ (w : World) (path : Text) (file_id : Option ℕ) (expected size : Option ℕ) (e : Engine)
    (before : Row) where
  abbrev done : Bool
  done = (downloaded w path file_id expected size e).0

  abbrev files_after : Files
  files_after = (downloaded w path file_id expected size e).1.db.files

  safe-IsLeft :
      w.safe_path path ≡ true
      → done ≡ false
      → get_file path e.db.files ≡ some before
      → IsLeft path before files_after
  safe-IsLeft safe failed had =
      let b = begin_transfer-IsFramed w path e in
      let start = begun w path file_id expected size e in
      let h : (download_body w path file_id expected size start).0 ≡ false =
        sym (downloaded_done w path file_id expected size e safe) ∙ failed in
      let had' : get_file path start.db.files ≡ some before = ap (get_file path) b.files ∙ had in
      let same_files = (downloaded-IsFramed w path file_id expected size e safe).files in
      elim (Option-cases (get_file path (after_body w path file_id expected size start).db.files)) [
        | inl gone ↦ absurd (
            ground (
              arith,
              body_still w path file_id expected size start (fetched w path file_id expected size)
                  refl h (ap is_some had'),
            ))
        | inr (row, found) ↦ record {
          row = row;
          found = ap (get_file path) same_files ∙ found;
          undone =
              body-IsUndone w path file_id expected size start
                (fetched w path file_id expected size) before row refl h had' found;
        }
      ]

  unsafe-IsLeft :
      w.safe_path path ≡ false
      → get_file path e.db.files ≡ some before
      → IsLeft path before files_after
  unsafe-IsLeft unsafe had = record {
    row = before;
    found =
        ap (λ (r : Bool × Engine). get_file path r.1.db.files)
          (downloaded_unsafe w path file_id expected size e unsafe)
        ∙ had;
    undone = record {
      file_id = refl;
      server_checksum = refl;
      local_checksum = refl;
      status = inr refl;
    };
  }

  pub download_path-IsLeft :
      done ≡ false → get_file path e.db.files ≡ some before → IsLeft path before files_after
  download_path-IsLeft failed had = elim (Bool-cases (w.safe_path path)) [
    | inl safe ↦ safe-IsLeft safe failed had
    | inr unsafe ↦ unsafe-IsLeft unsafe had
  ]
