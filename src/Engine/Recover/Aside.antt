-- ===== src/Engine/Recover/Aside.antt =====
-- What an upload leaves alone at another path.
use hermitstash_sync.Prelude.{
  ℕ, Bool, true, false, ◌||◌, Option, none, some, List, [], ◌∷◌, ◌++◌, Text, same, same_iff, any,
  if◌then◌else◌, same_value, or_else, ◌≡◌, ◌⊎◌, inl, inr, refl, arith, ◌∙◌,
}
use hermitstash_sync.Transfer.{File}
use hermitstash_sync.StateDb.Rows.{Row, Status, error, get_file}
use hermitstash_sync.StateDb.Laws.{
  get_file-write_row, get_file-remove_file, get_file-update_file_status,
}
use hermitstash_sync.Engine.State.{
  Engine, World, Upload, Receipt, accepted, rejected, unsent, on_disk, put_disk, hash_of, upsert,
  mark, forget, Request, delete_request, row_or_blank,
}
use hermitstash_sync.Engine.Suppress.{is_suppressed}
use hermitstash_sync.Engine.Cursor.{maybe_mark_synced}
use hermitstash_sync.Engine.Download.{drop_path, add_failure, clear_failure}
use hermitstash_sync.Engine.Local.Upload.{
  upload_file, upload_body, settle_upload, settle_found, retract_upload, begin_upload, end_upload,
  undeleted_row, changed_row, sent_row,
}

module _ (w : World) (path other : Text) where
  -- The other path is another path, and another name on the volume.
  abbrev pub IsApart : Type 0
  IsApart = (same other path ≡ false) × (same (w.disk_key other) (w.disk_key path) ≡ false)

any-drop_path :
    (path other : Text) (ps : List Text)
    → same other path ≡ false
    → any (same path) (drop_path other ps) ≡ any (same path) ps
any-drop_path path other [] h = refl
any-drop_path path other (p ∷ ps) h = ground (
  arith,
  h,
  same_iff other p,
  same_iff path p,
  same_iff other path,
  any-drop_path path other ps h,
)

any-append_one :
    (path other : Text) (ps : List Text)
    → same other path ≡ false
    → any (same path) (ps ++ other ∷ []) ≡ any (same path) ps
any-append_one path other [] h = ground (arith, h, same_iff other path, same_iff path other)
any-append_one path other (p ∷ ps) h = ground (arith, any-append_one path other ps h)

row_or_blank_path : (path : Text) (o : Option Row) → (row_or_blank path o).relative_path ≡ path
row_or_blank_path path none = refl
row_or_blank_path path (some row) = refl

Upload-cases : (a : Upload) → (a ≡ rejected) ⊎ (a ≡ unsent) ⊎ ((r : Receipt) × (a ≡ accepted r))
Upload-cases rejected = inl refl
Upload-cases unsent = inr (inl refl)
Upload-cases (accepted r) = inr (inr (r, refl))

module _ (w : World) (path : Text) where
  -- At the path, the row and the file are the same, and so is what is held and refused, and the flags.
  pub record IsAside (e e' : Engine) : Type 0 where
    pub row : get_file path e'.db.files ≡ get_file path e.db.files
    pub file : e'.disk (w.disk_key path) ≡ e.disk (w.disk_key path)
    pub held : e'.held ≡ e.held
    pub refusals : any (same path) e'.permanent_failures ≡ any (same path) e.permanent_failures
    pub resyncing : e'.resyncing ≡ e.resyncing
    pub stopped : e'.stopped ≡ e.stopped

  pub nothing-IsAside : (e : Engine) → IsAside e e
  nothing-IsAside e = record {
    row = refl;
    file = refl;
    held = refl;
    refusals = refl;
    resyncing = refl;
    stopped = refl;
  }

  pub then-IsAside : (a b c : Engine) → IsAside a b → IsAside b c → IsAside a c
  then-IsAside a b c x y = record {
    row = y.row ∙ x.row;
    file = y.file ∙ x.file;
    held = y.held ∙ x.held;
    refusals = y.refusals ∙ x.refusals;
    resyncing = y.resyncing ∙ x.resyncing;
    stopped = y.stopped ∙ x.stopped;
  }

  upsert-IsAside :
      (new : Row) (e : Engine) → same new.relative_path path ≡ false → IsAside e (upsert new e)
  upsert-IsAside new e h = record {
    row = ground (arith, h, get_file-write_row path new e.db.files);
    file = refl;
    held = refl;
    refusals = refl;
    resyncing = refl;
    stopped = refl;
  }

  pub if-IsAside :
      (b : Bool) (e x y : Engine) → IsAside e x → IsAside e y → IsAside e (if b then x else y)
  if-IsAside true e x y hx hy = hx
  if-IsAside false e x y hx hy = hy

  module _ (other : Text) (apart : IsApart w path other) where
    mark-IsAside : (status : Status) (e : Engine) → IsAside e (mark other status e)
    mark-IsAside status e = record {
      row = ground (arith, apart, get_file-update_file_status path other status e.db.files);
      file = refl;
      held = refl;
      refusals = refl;
      resyncing = refl;
      stopped = refl;
    }

    sent_something-IsAside :
        (sent : List Request) (e : Engine) → IsAside e (record e { sent = sent })
    sent_something-IsAside sent e = record {
      row = refl;
      file = refl;
      held = refl;
      refusals = refl;
      resyncing = refl;
      stopped = refl;
    }

    forget-IsAside : (e : Engine) → IsAside e (forget other e)
    forget-IsAside e = record {
      row = ground (arith, apart, get_file-remove_file path other e.db.files);
      file = refl;
      held = refl;
      refusals = refl;
      resyncing = refl;
      stopped = refl;
    }

    -- A row of the other path.
    pub own_row-IsAside :
        (new : Row) (e : Engine) → new.relative_path ≡ other → IsAside e (upsert new e)
    own_row-IsAside new e at = upsert-IsAside new e (rw at apart.0)

    retract-IsAside :
        (r : Receipt) (id : ℕ) (uploaded : Option ℕ) (e : Engine)
        → IsAside e (retract_upload w other r id uploaded e)
    unfolding retract_upload
    retract-IsAside r id uploaded e =
        let e' = record e { sent = e.sent ++ delete_request id ∷ [] } in
        let row = undeleted_row other r id uploaded (get_file other e.db.files) in
        if-IsAside (w.delete_ok id) e (forget other e') (upsert row e')
          (then-IsAside e e' (forget other e') (sent_something-IsAside e'.sent e)
            (forget-IsAside e'))
          (then-IsAside e e' (upsert row e') (sent_something-IsAside e'.sent e)
            (own_row-IsAside row e' (row_or_blank_path other (get_file other e.db.files))))

    changed-IsAside :
        (r : Receipt) (uploaded : Option ℕ) (now : Option File) (e : Engine)
        → IsAside e (upsert (changed_row other r uploaded now (get_file other e.db.files)) e)
    changed-IsAside r uploaded now e =
        own_row-IsAside (changed_row other r uploaded now (get_file other e.db.files)) e
          (row_or_blank_path other (get_file other e.db.files))

    settle_found-IsAside :
        (r : Receipt) (uploaded : Option ℕ) (now : Option File) (id : Option ℕ) (e : Engine)
        → IsAside e (settle_found w other r uploaded now id e)
    unfolding settle_found
    settle_found-IsAside r uploaded none (some id) e = retract-IsAside r id uploaded e
    settle_found-IsAside r uploaded none none e = changed-IsAside r uploaded none e
    settle_found-IsAside r uploaded (some file) id e =
        if-IsAside (same_value (hash_of (some file)) uploaded) e _ _
          (own_row-IsAside (sent_row other r uploaded file) e refl)
          (changed-IsAside r uploaded (some file) e)

    clear_failure-IsAside : (e : Engine) → IsAside e (clear_failure other e)
    clear_failure-IsAside e = record {
      row = refl;
      file = refl;
      held = refl;
      refusals = any-drop_path path other e.permanent_failures apart.0;
      resyncing = refl;
      stopped = refl;
    }

    add_failure-IsAside : (e : Engine) → IsAside e (add_failure other e)
    add_failure-IsAside e = record {
      row = refl;
      file = refl;
      held = refl;
      refusals = ground (arith, any-append_one path other e.permanent_failures apart.0);
      resyncing = refl;
      stopped = refl;
    }

    put_disk-IsAside : (file : Option File) (e : Engine) → IsAside e (put_disk w other file e)
    unfolding put_disk
    put_disk-IsAside file e = record {
      row = refl;
      file = rw apart.1 refl;
      held = refl;
      refusals = refl;
      resyncing = refl;
      stopped = refl;
    }

    accepted-IsAside :
        (uploaded : Option ℕ) (r : Receipt) (e : Engine)
        → let e' = put_disk w other (w.after_upload other) e in
          IsAside e (
            if w.interrupted || e.resyncing || e.stopped
            then e'
            else settle_upload w other r (or_else r.checksum uploaded) e')
    unfolding settle_upload
    accepted-IsAside uploaded r e =
        let e' = put_disk w other (w.after_upload other) e in
        let e'' = clear_failure other e' in
        let there = put_disk-IsAside (w.after_upload other) e in
        if-IsAside (w.interrupted || e.resyncing || e.stopped) e e' _ there (
          then-IsAside e e'' _ (then-IsAside e e' e'' there (clear_failure-IsAside e')) (
            settle_found-IsAside r (or_else r.checksum uploaded) (on_disk w e' other) r.file_id
              e''))

    upload_body-IsAside :
        (uploaded : Option ℕ) (e : Engine) → IsAside e (upload_body w other uploaded e)
    unfolding upload_body
    upload_body-IsAside uploaded e = elim (Upload-cases (w.upload other)) [
      | inl h ↦
          rw (h, upload_body)
            (then-IsAside e (mark other error e) (add_failure other (mark other error e))
              (mark-IsAside error e) (add_failure-IsAside (mark other error e)))
      | inr (inl h) ↦ rw (h, upload_body) (mark-IsAside error e)
      | inr (inr (r, h)) ↦ rw (h, upload_body) (accepted-IsAside uploaded r e)
    ]

    begin-IsAside : (e : Engine) → IsAside e (begin_upload e)
    begin-IsAside e = record {
      row = ground arith;
      file = ground arith;
      held = ground arith;
      refusals = ground arith;
      resyncing = ground arith;
      stopped = ground arith;
    }

    end-IsAside : (e : Engine) → IsAside e (end_upload e)
    unfolding maybe_mark_synced
    end-IsAside e = record {
      row = ground arith;
      file = ground arith;
      held = ground arith;
      refusals = ground arith;
      resyncing = ground arith;
      stopped = ground arith;
    }

    pub upload_file-IsAside :
        (uploaded : Option ℕ) (e : Engine) → IsAside e (upload_file w other uploaded e)
    unfolding upload_file
    upload_file-IsAside uploaded e =
        let b = begin_upload e in
        let done = upload_body w other uploaded b in
        if-IsAside (is_suppressed w other e) e e (end_upload done) (nothing-IsAside e) (
          then-IsAside e b (end_upload done) (begin-IsAside e) (
            then-IsAside b done (end_upload done) (upload_body-IsAside uploaded b)
              (end-IsAside done)))
