-- ===== src/Engine/Local/UploadLaws.antt =====
-- What an upload leaves in the table: SYNCED only for bytes that the server has.
use hermitstash_sync.Prelude.{
  ℕ, ◌≡◌, ◌⊎◌, inl, inr, refl, sym, ap, ◌∙◌, true, false, ◌||◌, Option, none, some, arith,
  if◌then◌else◌, Bool-cases, or_else, same_value, same_value_equal, Text, same_refl,
}
use hermitstash_sync.Transfer.{File}
use hermitstash_sync.StateDb.Rows.{Row, Files, get_file, synced as synced_row, pending_delete}
use hermitstash_sync.Engine.State.{
  Engine, World, Disk, Receipt, accepted, on_disk, hash_of, put_disk,
}
use hermitstash_sync.Engine.Suppress.{is_suppressed}
use hermitstash_sync.Engine.Cursor.{maybe_mark_synced}
use hermitstash_sync.Engine.Download.{clear_failure}
use hermitstash_sync.Engine.Local.Upload.{
  begin_upload, undeleted_row, sent_row, settle_upload, upload_body, upload_file,
}
use hermitstash_sync.Engine.Local.Settled.{settled_row, settle_row, settled_disk}

begin-flags :
    (e : Engine)
    → ((begin_upload e).resyncing ≡ e.resyncing) × ((begin_upload e).stopped ≡ e.stopped)
begin-flags e = (ground arith, ground arith)

begin-files : (e : Engine) → (begin_upload e).db.files ≡ e.db.files
begin-files e = ground arith

module _ (w : World) (path : Text) (uploaded_checksum : Option ℕ) (e : Engine) where
  abbrev after : Engine
  after = upload_file w path uploaded_checksum e

  abbrev body : Engine
  body = upload_body w path uploaded_checksum (begin_upload e)

  files-after : is_suppressed w path e ≡ false → after.db.files ≡ body.db.files
  unfolding upload_file maybe_mark_synced
  files-after quiet = ground arith

  disk-after : is_suppressed w path e ≡ false → after.disk ≡ body.disk
  unfolding upload_file maybe_mark_synced
  disk-after quiet = ground arith

  abbrev sum_of : Receipt → Option ℕ
  sum_of r = or_else r.checksum uploaded_checksum

  -- The engine when the bytes were sent.
  abbrev sent_engine : Engine
  sent_engine = put_disk w path (w.after_upload path) (begin_upload e)

  body-eq :
      (r : Receipt)
      → w.upload path ≡ accepted r
      → (w.interrupted || e.resyncing || e.stopped) ≡ false
      → body ≡ settle_upload w path r (sum_of r) sent_engine
  unfolding upload_body put_disk
  body-eq r answer uncut = rw (upload_body, answer) (uncut_body (begin-flags e))
    where
      uncut_body :
          ((begin_upload e).resyncing ≡ e.resyncing) × ((begin_upload e).stopped ≡ e.stopped)
          → (if w.interrupted || (begin_upload e).resyncing || (begin_upload e).stopped
              then sent_engine
              else settle_upload w path r (sum_of r) sent_engine)
            ≡ settle_upload w path r (sum_of r) sent_engine
      uncut_body (a, b) = rw (a, b, uncut) refl

  disk_settled : (r : Receipt) (s : Engine) → (settle_upload w path r (sum_of r) s).disk ≡ s.disk
  unfolding settle_upload
  disk_settled r s =
      settled_disk w path r (sum_of r) (on_disk w s path) r.file_id (clear_failure path s)

  there : (r : Receipt) → on_disk w sent_engine path ≡ w.after_upload path
  unfolding put_disk on_disk
  there r = rw same_refl refl

  -- The table after an upload that the server took, and that nothing cut off.
  upload_row :
      (r : Receipt)
      → is_suppressed w path e ≡ false
      → w.upload path ≡ accepted r
      → (w.interrupted || e.resyncing || e.stopped) ≡ false
      → get_file path after.db.files
        ≡ settled_row w path r (sum_of r) (w.after_upload path) r.file_id (get_file path e.db.files)
  unfolding settle_upload put_disk
  upload_row r quiet answer uncut =
      ap (get_file path) (files-after quiet)
      ∙ ap (λ (x : Engine). get_file path x.db.files) (body-eq r answer uncut)
      ∙ settle_row w path r (sum_of r) (clear_failure path sent_engine) (on_disk w sent_engine path)
          r.file_id
      ∙ ap
          (λ (now : Option File).
            settled_row w path r (sum_of r) now r.file_id (get_file path (begin_upload e).db.files))
          (there r)
      ∙ ap
          (λ (fs : Files).
            settled_row w path r (sum_of r) (w.after_upload path) r.file_id (get_file path fs))
          (begin-files e)

  -- A file that is still what was sent has a synced row.
  pub upload_row_sent :
      (r : Receipt) (file : File)
      → is_suppressed w path e ≡ false
      → w.upload path ≡ accepted r
      → (w.interrupted || e.resyncing || e.stopped) ≡ false
      → w.after_upload path ≡ some file
      → same_value (hash_of (some file)) (sum_of r) ≡ true
      → get_file path after.db.files ≡ some (sent_row path r (sum_of r) file)
  unfolding settled_row
  upload_row_sent r file quiet answer uncut still agrees =
      upload_row r quiet answer uncut
      ∙ ap
          (λ (now : Option File).
            settled_row w path r (sum_of r) now r.file_id (get_file path e.db.files))
          still
      ∙ rw agrees refl

  upload_disk :
      (r : Receipt)
      → is_suppressed w path e ≡ false
      → w.upload path ≡ accepted r
      → (w.interrupted || e.resyncing || e.stopped) ≡ false
      → on_disk w after path ≡ w.after_upload path
  unfolding on_disk
  upload_disk r quiet answer uncut =
      ap (λ (d : Disk). d (w.disk_key path))
        (disk-after quiet
          ∙ ap (λ (x : Engine). x.disk) (body-eq r answer uncut)
          ∙ disk_settled r sent_engine)
      ∙ there r

  -- A row is SYNCED after an upload that the server took, and that neither stop nor resync cut off,
  -- only if the file is on the disk with the digest that the server has, which the row records on both
  -- sides.
  pub upload_file_synced :
      (r : Receipt) (row : Row)
      → is_suppressed w path e ≡ false
      → w.upload path ≡ accepted r
      → (w.interrupted || e.resyncing || e.stopped) ≡ false
      → get_file path after.db.files ≡ some row
      → row.status ≡ synced_row
      → (file : File) × (on_disk w after path ≡ some file)
        × (hash_of (some file) ≡ sum_of r)
        × (row.local_checksum ≡ sum_of r)
        × (row.server_checksum ≡ sum_of r)
  unfolding settled_row
  upload_file_synced r row quiet answer uncut found synced =
      synced_end (w.after_upload path) r.file_id (sym (upload_row r quiet answer uncut) ∙ found)
        (upload_disk r quiet answer uncut)
    where
      synced_end :
          (now : Option File) (id : Option ℕ)
          → settled_row w path r (sum_of r) now id (get_file path e.db.files) ≡ some row
          → on_disk w after path ≡ now
          → (file : File) × (on_disk w after path ≡ some file)
            × (hash_of (some file) ≡ sum_of r)
            × (row.local_checksum ≡ sum_of r)
            × (row.server_checksum ≡ sum_of r)
      synced_end none none h disk = absurd (ground arith)
      synced_end none (some id) h disk = absurd (ground arith)
      synced_end (some file) id h disk =
          elim (Bool-cases (same_value (hash_of (some file)) (sum_of r))) [
            | inl same_sum ↦ (
              file,
              disk,
              same_value_equal (hash_of (some file)) (sum_of r) same_sum,
              ground arith,
              ground arith,
            )
            | inr differs ↦ absurd (ground arith)
          ]

  -- A file that was deleted while the server took its upload, which neither stop nor resync cut off,
  -- leaves no row if the server then deletes its copy, and a row PENDING_DELETE with the copy's id if
  -- it does not.
  pub upload_file_gone :
      (r : Receipt) (id : ℕ)
      → is_suppressed w path e ≡ false
      → w.upload path ≡ accepted r
      → (w.interrupted || e.resyncing || e.stopped) ≡ false
      → w.after_upload path ≡ none
      → r.file_id ≡ some id
      → ((w.delete_ok id ≡ true) × (get_file path after.db.files ≡ none))
        ⊎ ((row : Row) × (get_file path after.db.files ≡ some row)
            × (row.status ≡ pending_delete)
            × (row.server_file_id ≡ some id))
  unfolding settled_row
  upload_file_gone r id quiet answer uncut vanished named =
      let left : get_file path after.db.files
          ≡ settled_row w path r (sum_of r) none (some id) (get_file path e.db.files) =
        upload_row r quiet answer uncut
        ∙ ap
            (λ (now : Option File).
              settled_row w path r (sum_of r) now r.file_id (get_file path e.db.files))
            vanished
        ∙ ap (λ (i : Option ℕ). settled_row w path r (sum_of r) none i (get_file path e.db.files))
            named in
      elim (Bool-cases (w.delete_ok id)) [
        | inl ok ↦ inl (ok, left ∙ rw ok refl)
        | inr refused ↦ inr (
          undeleted_row path r id (sum_of r) (get_file path e.db.files),
          left ∙ rw refused refl,
          refl,
          refl,
        )
      ]
