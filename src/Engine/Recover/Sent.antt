-- ===== src/Engine/Recover/Sent.antt =====
-- The sweep of uploads sends what is on the disk.
use hermitstash_sync.Prelude.{
  ℕ, ◌≡◌, refl, ap, ==_iff, ◌∙◌, Bool, true, false, ◌&&◌, ◌||◌, [], ◌∷◌, not, arith, List, ◌++◌,
  sym, Option, some, if◌then◌else◌, is_some, or_else, same_value, any, Text, same,
}
use hermitstash_sync.Transfer.{File}
use hermitstash_sync.StateDb.Rows.{Row, get_file, get_files_by_status, pending_upload}
use hermitstash_sync.Engine.State.{Engine, World, Receipt, accepted, on_disk, hash_of, upsert}
use hermitstash_sync.Engine.Suppress.{is_suppressed}
use hermitstash_sync.Engine.Local.Upload.{upload_file, sent_row}
use hermitstash_sync.Engine.Local.UploadLaws.{upload_row_sent}
use hermitstash_sync.Engine.Recover.Aside.{IsAside}
use hermitstash_sync.Engine.Recover.Beside.{
  AllApart, recover_upload-IsAside, recover_new-IsAside, for_rows-IsAside,
}
use hermitstash_sync.Engine.Recover.Uploads.{
  retried_row, landed_upload_row, redrive_upload, recover_upload_found, recover_upload,
  recover_pending_uploads, recover_new, for_rows, stranded_new,
}

module _ (w : World) (row : Row) (file : File) (digest : ℕ) (e : Engine) where
  abbrev path : Text
  path = row.relative_path

  redrive_upload-eq :
      hash_of (some file) ≡ some digest
      → redrive_upload w row file e
        ≡ upload_file w path (some digest) (upsert (retried_row row file digest) e)
  unfolding redrive_upload
  redrive_upload-eq h = rw (h, redrive_upload) refl

  -- The upload of a path goes through: the server takes the bytes on the disk and reports their digest
  -- or none, and the file is the same when it is done.
  pub record GoesThrough (r : Receipt) : Type 0 where
    pub answer : w.upload path ≡ accepted r
    pub agrees : or_else r.checksum (some digest) ≡ some digest
    pub still : w.after_upload path ≡ some file
    pub uncut : (w.interrupted || e.resyncing || e.stopped) ≡ false

  -- After the sweep took up the row.
  abbrev pub IsSent : Receipt → Engine → Type 0
  IsSent r e' = get_file path e'.db.files ≡ some (sent_row path r (some digest) file)

  redrive_upload_sends :
      (r : Receipt)
      → is_suppressed w path e ≡ false
      → hash_of (some file) ≡ some digest
      → GoesThrough r
      → IsSent r (redrive_upload w row file e)
  unfolding is_suppressed
  redrive_upload_sends r free h goes =
      ap (λ (x : Engine). get_file path x.db.files) (redrive_upload-eq h)
      ∙ upload_row_sent w path (some digest) (upsert (retried_row row file digest) e) r file free
          goes.answer goes.uncut goes.still (rw (h, goes.agrees) ((==_iff digest digest).1 refl))
      ∙ ap (λ (c : Option ℕ). some (sent_row path r c file)) goes.agrees

  found_sends :
      (r : Receipt)
      → is_suppressed w path e ≡ false
      → hash_of (some file) ≡ some digest
      → same_value (some digest) row.server_checksum ≡ false
      → any (same path) e.permanent_failures ≡ false
      → GoesThrough r
      → IsSent r (recover_upload_found w row file e)
  unfolding recover_upload_found
  found_sends r free h differs allowed goes =
      rw (h, differs, allowed)
        (if-IsSent r (is_some row.server_checksum) (redrive_upload_sends r free h goes))
    where
      if-IsSent :
          (r : Receipt) (b : Bool)
          → IsSent r (redrive_upload w row file e)
          → IsSent r
              (if b && false then upsert (landed_upload_row row) e else redrive_upload w row file e)
      if-IsSent r true h = h
      if-IsSent r false h = h

  recover_upload_sends :
      (r : Receipt)
      → w.safe_local_path path ≡ true
      → is_suppressed w path e ≡ false
      → on_disk w e path ≡ some file
      → hash_of (some file) ≡ some digest
      → same_value (some digest) row.server_checksum ≡ false
      → any (same path) e.permanent_failures ≡ false
      → GoesThrough r
      → IsSent r (recover_upload w row e)
  unfolding recover_upload
  recover_upload_sends r safe free there h differs allowed goes =
      rw (safe, free, there) (found_sends r free h differs allowed goes)

not_taken : (b : Bool) (x y : Engine) → b ≡ false → (if b then x else y) ≡ y
not_taken b x y h = rw h refl

module _ (w : World) (row : Row) where
  -- A loop with this row in the midst of rows of other paths.
  for_rows-split :
      (before later : List Row) (e : Engine)
      → AllApart w row.relative_path before
      → (e.stopped || e.resyncing) ≡ false
      → for_rows (recover_upload w) (before ++ row ∷ later) e
        ≡ for_rows
            (recover_upload w)
            later
            (recover_upload w row (for_rows (recover_upload w) before e))
  unfolding for_rows
  for_rows-split [] later e apart going = not_taken (e.stopped || e.resyncing) e _ going
  for_rows-split (b ∷ bs) later e (one, rest) going =
      let kept = recover_upload-IsAside w row.relative_path b one e in
      not_taken (e.stopped || e.resyncing) e _ going
      ∙ for_rows-split bs later (recover_upload w b e) rest
          (rw (kept.stopped, kept.resyncing) going)
      ∙ ap (λ (x : Engine). for_rows (recover_upload w) later (recover_upload w row x))
          (sym (not_taken (e.stopped || e.resyncing) e _ going))

  module _ (file : File) (digest : ℕ) (e : Engine) where
    -- The row is marked for upload, among others that are of other paths.
    pub record IsMarked (before later : List Row) : Type 0 where
      pub listed : get_files_by_status pending_upload e.db.files ≡ before ++ row ∷ later
      pub earlier : AllApart w row.relative_path before
      pub later_ones : AllApart w row.relative_path later
      pub new_ones : AllApart w row.relative_path (stranded_new e.db.files)

    cut_flags :
        (w.interrupted || e.resyncing || e.stopped) ≡ false → (e.stopped || e.resyncing) ≡ false
    cut_flags uncut = ground (arith, uncut)

    recover_upload-IsSent :
        (r : Receipt) (e' : Engine)
        → IsAside w row.relative_path e e'
        → w.safe_local_path row.relative_path ≡ true
        → is_suppressed w row.relative_path e ≡ false
        → on_disk w e row.relative_path ≡ some file
        → hash_of (some file) ≡ some digest
        → same_value (some digest) row.server_checksum ≡ false
        → any (same row.relative_path) e.permanent_failures ≡ false
        → GoesThrough w row file digest e r
        → IsSent w row file digest e r (recover_upload w row e')
    unfolding is_suppressed on_disk
    recover_upload-IsSent r e' kept safe free there h differs allowed goes =
        recover_upload_sends w row file digest e' r safe (rw kept.held free) (kept.file ∙ there) h
          differs (kept.refusals ∙ allowed)
          record {
            answer = goes.answer;
            agrees = goes.agrees;
            still = goes.still;
            uncut = rw (kept.resyncing, kept.stopped) goes.uncut;
          }

    -- A row that is marked for upload, as a crash or a failed rename leaves it, is sent by the sweep of
    -- uploads, wherever it stands among the rows that the sweep takes up and whatever becomes of the
    -- others; also when the file is still the one that the row records: the row is then in sync with the
    -- file. This is where the engine is live and has its client, the pool is idle, the other rows are of
    -- other paths with other names on the volume, the path is safe and held by no transfer, its file can
    -- be hashed, is not what the server has already, was not refused for good before, and stays as it is
    -- while it is sent, and the server takes it and reports its digest or none.
    pub recover_pending_uploads_sends :
        (before later : List Row) (r : Receipt)
        → IsMarked before later
        → e.has_http ≡ true
        → w.pool_busy ≡ false
        → w.safe_local_path row.relative_path ≡ true
        → is_suppressed w row.relative_path e ≡ false
        → on_disk w e row.relative_path ≡ some file
        → hash_of (some file) ≡ some digest
        → same_value (some digest) row.server_checksum ≡ false
        → any (same row.relative_path) e.permanent_failures ≡ false
        → GoesThrough w row file digest e r
        → IsSent w row file digest e r (recover_pending_uploads w e)
    unfolding recover_pending_uploads
    recover_pending_uploads_sends before later r marked http idle safe free there h differs allowed
          goes =
        let path = row.relative_path in
        let going = cut_flags goes.uncut in
        let first = for_rows (recover_upload w) before e in
        let sent = recover_upload w row first in
        let rest = for_rows (recover_upload w) later sent in
        let kept =
          for_rows-IsAside w path (recover_upload w) before e (recover_upload-IsAside w path)
            marked.earlier in
        let news = stranded_new e.db.files in
        let last =
          for_rows-IsAside w path (recover_new w) news rest (recover_new-IsAside w path)
            marked.new_ones in
        let middle =
          for_rows-IsAside w path (recover_upload w) later sent (recover_upload-IsAside w path)
            marked.later_ones in
        ap (λ (x : Engine). get_file path x.db.files)
          (not_taken (e.stopped || e.resyncing || not e.has_http) _ _ (ground (arith, going, http))
            ∙ not_taken w.pool_busy _ _ idle
            ∙ ap
                (λ (rows : List Row).
                  for_rows (recover_new w) news (for_rows (recover_upload w) rows e))
                marked.listed
            ∙ ap (λ (x : Engine). for_rows (recover_new w) news x)
                (for_rows-split before later e marked.earlier going))
        ∙ last.row
        ∙ middle.row
        ∙ recover_upload-IsSent r first kept safe free there h differs allowed goes
