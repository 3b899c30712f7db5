-- ===== src/Engine/Inbound/Fetch.antt =====
-- The download of an event's file over what is on the disk: bytes that were not synced are kept as a
-- conflict copy, and the cursor moves only with a row that records the event's digest.
use hermitstash_sync.Prelude.{
  ℕ, ◌≡◌, ◌≢◌, inl, inr, refl, sym, ap, subst, ◌∙◌, Bool, true, false, Option, some, arith,
  Bool-cases, same_value, Text, same, same_refl,
}
use hermitstash_sync.Transfer.{File}
use hermitstash_sync.StateDb.Meta.{Db, get_last_seq}
use hermitstash_sync.StateDb.Rows.{Row, Files, get_file}
use hermitstash_sync.StateDb.Laws.{get_file-write_row}
use hermitstash_sync.Engine.State.{Engine, World, on_disk, hash_of, move_disk, upsert}
use hermitstash_sync.Engine.Cursor.{last_seq}
use hermitstash_sync.Engine.Conflict.{maybe_save_conflict_copy}
use hermitstash_sync.Engine.Download.{download_path, landed_row}
use hermitstash_sync.Engine.Download.Laws.{IsLanded, download_path-IsLanded, download_path-IsLocal}
use hermitstash_sync.Engine.Inbound.Gate.{FileEvent}
use hermitstash_sync.Engine.Inbound.Frame.{
  files-update_seq, disk-update_seq, held-update_seq, pending-update_seq,
}
use hermitstash_sync.Engine.Inbound.Added.{pending_row, fetch_event}

-- The row that an applied event leaves under its path.
pub record IsConfirmed (path : Text) (msg : FileEvent) (files : Files) : Type 0 where
  pub row : Row
  pub found : get_file path files ≡ some row
  pub local_matches : row.local_checksum ≡ msg.checksum
  pub server_matches : row.server_checksum ≡ msg.checksum

module _ (w : World) (path : Text) (incoming known : Option ℕ) (e : Engine) where
  -- A divergent file is moved to the conflict path if the rename succeeds.
  pub conflict_copy_keeps :
      (file : File)
      → w.rename_ok path (w.conflict_path path) ≡ true
      → on_disk w e path ≡ some file
      → same_value (hash_of (some file)) incoming ≡ false
      → same_value (hash_of (some file)) known ≡ false
      → on_disk w (maybe_save_conflict_copy w path incoming known e) (w.conflict_path path)
        ≡ some file
  unfolding maybe_save_conflict_copy move_disk on_disk
  conflict_copy_keeps file renames there differs unknown =
      ground (arith, same_refl (w.disk_key (w.conflict_path path)))

  pub db-conflict_copy : (maybe_save_conflict_copy w path incoming known e).db ≡ e.db
  unfolding maybe_save_conflict_copy move_disk
  db-conflict_copy = ground arith

  pub held-conflict_copy : (maybe_save_conflict_copy w path incoming known e).held ≡ e.held
  unfolding maybe_save_conflict_copy move_disk
  held-conflict_copy = ground arith

  pub pending-conflict_copy :
      (maybe_save_conflict_copy w path incoming known e).catch_up_pending ≡ e.catch_up_pending
  unfolding maybe_save_conflict_copy move_disk
  pending-conflict_copy = ground arith

module _ (w : World) (path : Text) (msg : FileEvent) (base : Row) (known : Option ℕ)
    (e : Engine) where
  abbrev copied : Engine
  copied = maybe_save_conflict_copy w path msg.checksum known e

  abbrev pub queued : Engine
  queued = upsert (pending_row path msg base) copied

  abbrev pub download : Bool × Engine
  download = download_path w path msg.file_id msg.checksum msg.size queued

  pub disk-fetch_event : (fetch_event w path msg base known e).disk ≡ download.1.disk
  unfolding fetch_event
  disk-fetch_event = ground (arith, disk-update_seq w msg.seq download.1)

  pub fetch_event_keeps :
      (file : File)
      → same (w.disk_key path) (w.disk_key (w.conflict_path path)) ≡ false
      → w.rename_ok path (w.conflict_path path) ≡ true
      → on_disk w e path ≡ some file
      → same_value (hash_of (some file)) msg.checksum ≡ false
      → same_value (hash_of (some file)) known ≡ false
      → on_disk w (fetch_event w path msg base known e) (w.conflict_path path) ≡ some file
  unfolding on_disk
  fetch_event_keeps file apart renames there differs unknown =
      let local = download_path-IsLocal w path msg.file_id msg.checksum msg.size queued in
      ap (λ (d : Text → Option File). d (w.disk_key (w.conflict_path path))) disk-fetch_event
      ∙ local.other_files (w.disk_key (w.conflict_path path)) apart
      ∙ conflict_copy_keeps w path msg.checksum known e file renames there differs unknown

  pub files-fetch_event : (fetch_event w path msg base known e).db.files ≡ download.1.db.files
  unfolding fetch_event
  files-fetch_event = ground (arith, files-update_seq w msg.seq download.1)

  pub queued_found : get_file path queued.db.files ≡ some (pending_row path msg base)
  queued_found =
      get_file-write_row path (pending_row path msg base) copied.db.files ∙ rw same_refl refl

  confirmed :
      IsLanded w path msg.file_id msg.checksum msg.size queued download.1
      → IsConfirmed path msg download.1.db.files
  confirmed l = record {
    row = landed_row path msg.checksum l.file (some (pending_row path msg base));
    found =
        l.tracked
        ∙ ap (λ (r : Option Row). some (landed_row path msg.checksum l.file r)) queued_found;
    local_matches = refl;
    server_matches = refl;
  }

  cursor-not_done : download.0 ≡ false → last_seq (fetch_event w path msg base known e) ≡ last_seq e
  unfolding fetch_event
  cursor-not_done not_done = rw not_done (
      (download_path-IsLocal w path msg.file_id msg.checksum msg.size queued).cursor
      ∙ ap (λ (d : Db). get_last_seq d.sync_state) (db-conflict_copy w path msg.checksum known e))

  pub fetch_event_honest :
      last_seq (fetch_event w path msg base known e) ≢ last_seq e
      → IsConfirmed path msg (fetch_event w path msg base known e).db.files
  fetch_event_honest moved = elim (Bool-cases download.0) [
    | inl done ↦
        subst (IsConfirmed path msg) (sym files-fetch_event)
          (confirmed (download_path-IsLanded w path msg.file_id msg.checksum msg.size queued done))
    | inr not_done ↦ absurd (moved (cursor-not_done not_done))
  ]

  pub held-fetch_event : (key : Text) → (fetch_event w path msg base known e).held key ≡ e.held key
  unfolding fetch_event
  held-fetch_event key = ground (
    arith,
    ap (λ (h : Text → ℕ). h key) (held-update_seq w msg.seq download.1),
    (download_path-IsLocal w path msg.file_id msg.checksum msg.size queued).held key,
    ap (λ (h : Text → ℕ). h key) (held-conflict_copy w path msg.checksum known e),
  )

  pub pending-fetch_event :
      (fetch_event w path msg base known e).catch_up_pending ≡ e.catch_up_pending
  unfolding fetch_event
  pending-fetch_event = ground (
    arith,
    pending-update_seq w msg.seq download.1,
    (download_path-IsLocal w path msg.file_id msg.checksum msg.size queued).pending,
    pending-conflict_copy w path msg.checksum known e,
  )
