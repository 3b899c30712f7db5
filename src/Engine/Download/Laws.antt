-- ===== src/Engine/Download/Laws.antt =====
-- What a download leaves behind, when it succeeds and when it fails.
use hermitstash_sync.Prelude.{
  ℕ, ◌≡◌, inl, inr, refl, sym, ap, subst, ◌∙◌, Bool, true, false, ◌||◌, Option, some, arith,
  Bool-cases, Text, same,
}
use hermitstash_sync.StateDb.Rows.{Files, Row, get_file, error as error_row}
use hermitstash_sync.Transfer.{File}
use hermitstash_sync.Transfer.Laws.{download_file_landed, IsWanted}
use hermitstash_sync.Engine.State.{Engine, World, on_disk}
use hermitstash_sync.Engine.Cursor.{last_seq}
use hermitstash_sync.Engine.Download.{
  begin_transfer, end_transfer, download_body, download_locked, download_path, landed_row,
  wanted_size,
}
use hermitstash_sync.Engine.Download.Body.{
  fetched, after_body, body_of_fetch, body_elsewhere, body_other_row, held-body, body_failed,
  cursor_body,
}
use hermitstash_sync.Engine.Download.Frame.{
  IsFramed, begin_transfer-IsFramed, end_transfer-IsFramed, held-end_transfer, held-begin_transfer,
}

module _ (w : World) (path : Text) (file_id : Option ℕ) (expected size : Option ℕ) where
  -- The file on the disk and its row after a download that reported success.
  pub record IsLanded (e e' : Engine) : Type 0 where
    pub file : File
    pub placed : on_disk w e' path ≡ some file
    pub wanted : IsWanted w.max_file_bytes expected (wanted_size size) file
    pub tracked :
        get_file path e'.db.files ≡ some (landed_row path expected file (get_file path e.db.files))

  abbrev pub downloaded : Engine → Bool × Engine
  downloaded e = download_path w path file_id expected size e

  abbrev pub begun : Engine → Engine
  begun e = begin_transfer w path e

  abbrev pub ended : Engine → Engine
  ended e = after_body w path file_id expected size (begun e)

  module _ (e : Engine) where
    downloaded-eq :
        w.safe_path path ≡ true
        → downloaded e ≡ (
          (download_body w path file_id expected size (begun e)).0,
          end_transfer w path (ended e),
        )
    unfolding download_path download_locked
    downloaded-eq safe = rw safe refl

    downloaded_safe : (downloaded e).0 ≡ true → w.safe_path path ≡ true
    unfolding download_path
    downloaded_safe h = ground arith

    pub downloaded_done :
        w.safe_path path ≡ true
        → (downloaded e).0 ≡ (download_body w path file_id expected size (begun e)).0
    downloaded_done safe = ap (λ (r : Bool × Engine). r.0) (downloaded-eq safe)

    -- Behind the bookkeeping stand the tables and the disk that the body left.
    pub downloaded-IsFramed : w.safe_path path ≡ true → IsFramed (ended e) (downloaded e).1
    downloaded-IsFramed safe =
        subst (λ (r : Bool × Engine). IsFramed (ended e) r.1) (sym (downloaded-eq safe))
          (end_transfer-IsFramed w path (ended e))

  -- Where a download reports success, a file that is what was asked for is in place, and the row of
  -- the path is SYNCED with the expected digest.
  pub download_path-IsLanded : (e : Engine) → (downloaded e).0 ≡ true → IsLanded e (downloaded e).1
  unfolding on_disk
  download_path-IsLanded e h =
      let safe = downloaded_safe e h in
      let (file, got, placed, tracked) =
        body_of_fetch w path file_id expected size (begun e) (fetched w path file_id expected size)
          refl (sym (downloaded_done e safe) ∙ h) in
      let f = downloaded-IsFramed e safe in
      let b = begin_transfer-IsFramed w path e in
      record {
        file = file;
        placed = ap (λ (d : Text → Option File). d (w.disk_key path)) f.disk ∙ placed;
        wanted =
            download_file_landed w.max_file_bytes (w.respond file_id) expected (wanted_size size)
              file got;
        tracked =
            ap (get_file path) f.files
            ∙ tracked
            ∙ ap (λ (fs : Files). some (landed_row path expected file (get_file path fs))) b.files;
      }

  -- Where a download of a safe path reports failure, and the engine neither stopped nor resynced
  -- meanwhile, the row of the path, if there is one, is in ERROR.
  pub download_path_failed :
      (e : Engine) (row : Row)
      → w.safe_path path ≡ true
      → (w.interrupted || e.resyncing || e.stopped) ≡ false
      → (downloaded e).0 ≡ false
      → get_file path (downloaded e).1.db.files ≡ some row
      → row.status ≡ error_row
  download_path_failed e row safe uncut h found =
      let b = begin_transfer-IsFramed w path e in
      body_failed w path file_id expected size (begun e) (fetched w path file_id expected size) row
        refl (ground (arith, b.resyncing, b.stopped)) (sym (downloaded_done e safe) ∙ h)
        (ap (get_file path) (sym (downloaded-IsFramed e safe).files) ∙ found)

  -- What one path's download may not touch.
  pub record IsLocal (e e' : Engine) : Type 0 where
    pub other_files : (key : Text) → same (w.disk_key path) key ≡ false → e'.disk key ≡ e.disk key
    pub other_rows :
        (other : Text)
        → same path other ≡ false
        → get_file other e'.db.files ≡ get_file other e.db.files
    pub cursor : last_seq e' ≡ last_seq e
    pub lowest : e'.lowest_unapplied ≡ e.lowest_unapplied
    pub pending : e'.catch_up_pending ≡ e.catch_up_pending
    pub resyncing : e'.resyncing ≡ e.resyncing
    pub stopped : e'.stopped ≡ e.stopped
    pub held : (key : Text) → e'.held key ≡ e.held key

  held-downloaded :
      (e : Engine) (key : Text) → w.safe_path path ≡ true → (downloaded e).1.held key ≡ e.held key
  held-downloaded e key safe =
      let c : (downloaded e).1.held key ≡ (end_transfer w path (ended e)).held key =
        ap (λ (r : Bool × Engine). r.1.held key) (downloaded-eq e safe) in
      let d : (ended e).held key ≡ (begun e).held key =
        ap (λ (h : Text → ℕ). h key) (held-body w path file_id expected size (begun e)) in
      ground (arith, c, d, held-end_transfer w path key (ended e), held-begin_transfer w path key e)

  downloaded_safe-IsLocal : (e : Engine) → w.safe_path path ≡ true → IsLocal e (downloaded e).1
  downloaded_safe-IsLocal e safe =
      let f = downloaded-IsFramed e safe in
      let b = begin_transfer-IsFramed w path e in
      let (cursor, lowest, resyncing, stopped, pending, state) =
        cursor_body w path file_id expected size (begun e) in
      record {
        other_files = λ key ne.
            ap (λ (d : Text → Option File). d key) f.disk
            ∙ body_elsewhere w path file_id expected size (begun e) key ne
            ∙ ap (λ (d : Text → Option File). d key) b.disk;
        other_rows = λ other ne.
            ap (get_file other) f.files
            ∙ body_other_row w path file_id expected size (begun e) other ne
            ∙ ap (get_file other) b.files;
        cursor = f.cursor ∙ cursor ∙ b.cursor;
        lowest = f.lowest ∙ lowest ∙ b.lowest;
        pending = f.pending ∙ pending ∙ b.pending;
        resyncing = f.resyncing ∙ resyncing ∙ b.resyncing;
        stopped = f.stopped ∙ stopped ∙ b.stopped;
        held = λ key. held-downloaded e key safe;
      }

  pub downloaded_unsafe : (e : Engine) → w.safe_path path ≡ false → downloaded e ≡ (false, e)
  unfolding download_path
  downloaded_unsafe e unsafe = rw unsafe refl

  IsLocal-refl : (e : Engine) → IsLocal e e
  IsLocal-refl e = record {
    other_files = λ key ne. refl;
    other_rows = λ other ne. refl;
    cursor = refl;
    lowest = refl;
    pending = refl;
    resyncing = refl;
    stopped = refl;
    held = λ key. refl;
  }

  -- However it ends, a download leaves every other file and row, the cursor, the lowest failed event
  -- and what is suppressed and pending as they were.
  pub download_path-IsLocal : (e : Engine) → IsLocal e (downloaded e).1
  download_path-IsLocal e = elim (Bool-cases (w.safe_path path)) [
    | inl safe ↦ downloaded_safe-IsLocal e safe
    | inr unsafe ↦
        subst (λ (r : Bool × Engine). IsLocal e r.1) (sym (downloaded_unsafe e unsafe))
          (IsLocal-refl e)
  ]
