-- ===== src/Engine/Inbound/Tracked.antt =====
-- After a file event the path is tracked with the server's view: in sync, or as work that a sweep
-- takes up again.
use hermitstash_sync.Prelude.{
  ℕ, ◌≡◌, ◌⊎◌, inl, inr, refl, sym, ap, subst, ◌∙◌, true, Option, none, some, Bool-cases,
  same_value, same_value_equal, Text, same_refl,
}
use hermitstash_sync.StateDb.Rows.{
  Row, Files, blank, get_file, pending_download, error as error_row,
}
use hermitstash_sync.StateDb.Laws.{get_file-write_row}
use hermitstash_sync.Engine.State.{Engine, World, upsert}
use hermitstash_sync.Engine.Cursor.{update_seq}
use hermitstash_sync.Engine.Download.{landed_row}
use hermitstash_sync.Engine.Download.Laws.{IsLanded, download_path-IsLanded}
use hermitstash_sync.Engine.Download.Undone.{IsLeft, download_path-IsLeft}
use hermitstash_sync.Engine.Inbound.Gate.{FileEvent, is_accepted, enter}
use hermitstash_sync.Engine.Inbound.Frame.{files-update_seq, files-leave}
use hermitstash_sync.Engine.Inbound.Fetch.{queued, queued_found, download, files-fetch_event}
use hermitstash_sync.Engine.Inbound.Added.{
  fetch_event, apply_added, handle_file_added, confirmed_row, apply_replaced, handle_file_replaced,
  pending_row,
}
use hermitstash_sync.Engine.Inbound.AddedLaws.{IsNamed}
use hermitstash_sync.Engine.Inbound.Delivery.{
  at, tracked, applied_added, after_added, after_added-eq, applied_replaced, after_replaced,
  after_replaced-eq,
}

-- The row of a path after an event for it.
pub record IsTracked (path : Text) (msg : FileEvent) (files : Files) : Type 0 where
  pub row : Row
  pub found : get_file path files ≡ some row
  pub id_matches : row.server_file_id ≡ msg.file_id
  pub server_matches : row.server_checksum ≡ msg.checksum
  pub settled :
      (row.local_checksum ≡ msg.checksum)
      ⊎ (row.status ≡ pending_download)
      ⊎ (row.status ≡ error_row)

module _ (w : World) (path : Text) (msg : FileEvent) where
  module _ (base : Row) (known : Option ℕ) (e : Engine) where
    landed-IsTracked :
        IsLanded w path msg.file_id msg.checksum msg.size
          (queued w path msg base known e)
          (download w path msg base known e).1
        → IsTracked path msg (download w path msg base known e).1.db.files
    landed-IsTracked l = record {
      row = landed_row path msg.checksum l.file (some (pending_row path msg base));
      found =
          l.tracked
          ∙ ap (λ (r : Option Row). some (landed_row path msg.checksum l.file r))
              (queued_found w path msg base known e);
      id_matches = refl;
      server_matches = refl;
      settled = inl refl;
    }

    left-IsTracked :
        IsLeft path (pending_row path msg base) (download w path msg base known e).1.db.files
        → IsTracked path msg (download w path msg base known e).1.db.files
    left-IsTracked l = record {
      row = l.row;
      found = l.found;
      id_matches = l.undone.file_id;
      server_matches = l.undone.server_checksum;
      settled = elim l.undone.status [ inl failed ↦ inr (inr failed) | inr kept ↦ inr (inl kept) ];
    }

    fetch_event-IsTracked : IsTracked path msg (fetch_event w path msg base known e).db.files
    fetch_event-IsTracked =
        subst (IsTracked path msg) (sym (files-fetch_event w path msg base known e))
          (elim (Bool-cases (download w path msg base known e).0) [
            | inl done ↦ landed-IsTracked (
                download_path-IsLanded w path msg.file_id msg.checksum msg.size
                  (queued w path msg base known e) done)
            | inr failed ↦ left-IsTracked (
                download_path-IsLeft w path msg.file_id msg.checksum msg.size
                  (queued w path msg base known e) (pending_row path msg base) failed
                  (queued_found w path msg base known e))
          ])

  module _ (e : Engine) where
    confirm-IsTracked :
        (row : Row)
        → same_value row.local_checksum msg.checksum ≡ true
        → IsTracked path msg (update_seq w msg.seq (upsert (confirmed_row path msg row) e)).db.files
    confirm-IsTracked row synced = record {
      row = confirmed_row path msg row;
      found =
          ap (get_file path) (files-update_seq w msg.seq (upsert (confirmed_row path msg row) e))
          ∙ get_file-write_row path (confirmed_row path msg row) e.db.files
          ∙ rw same_refl refl;
      id_matches = refl;
      server_matches = refl;
      settled = inl (same_value_equal row.local_checksum msg.checksum synced);
    }

    apply_added-IsTracked :
        (existing : Option Row)
        → IsNamed path existing
        → IsTracked path msg (apply_added w path msg none existing e).db.files
    unfolding apply_added
    apply_added-IsTracked none named = fetch_event-IsTracked (blank path) none e
    apply_added-IsTracked (some row) named =
        elim (Bool-cases (same_value row.local_checksum msg.checksum)) [
          | inl synced ↦ rw named (rw synced (confirm-IsTracked row synced))
          | inr stale ↦
              rw named (rw stale (fetch_event-IsTracked (blank path) row.server_checksum e))
        ]

    apply_replaced-IsTracked :
        (existing : Option Row)
        → IsNamed path existing
        → IsTracked path msg (apply_replaced w path msg existing e).db.files
    unfolding apply_replaced
    apply_replaced-IsTracked none named = fetch_event-IsTracked (blank path) none e
    apply_replaced-IsTracked (some row) named =
        elim (Bool-cases (same_value row.local_checksum msg.checksum)) [
          | inl synced ↦ rw named (rw synced (confirm-IsTracked row synced))
          | inr stale ↦ rw named (rw stale (fetch_event-IsTracked row row.server_checksum e))
        ]

module _ (w : World) (msg : FileEvent) (e : Engine) where
  -- Where no other casing is tracked, an accepted file_added leaves a row under its path that has the
  -- server's id and digest and is in sync, or is PENDING_DOWNLOAD or in ERROR, however the download
  -- ended.
  pub handle_file_added-IsTracked :
      is_accepted w (at w msg e) ≡ true
      → IsNamed (at w msg e) (tracked w msg e)
      → IsTracked (at w msg e) msg (handle_file_added w msg none e).db.files
  handle_file_added-IsTracked ok named =
      let left : (after_added w msg e).db.files ≡ (applied_added w msg e).db.files =
        ap (λ (x : Engine). x.db.files) (after_added-eq w msg e ok)
        ∙ files-leave w (at w msg e) (applied_added w msg e) in
      subst (IsTracked (at w msg e) msg) (sym left)
        (apply_added-IsTracked w (at w msg e) msg (enter w (at w msg e) e) (tracked w msg e) named)

  -- Where no other casing is tracked, an accepted file_replaced leaves a row under its path that has
  -- the server's id and digest and is in sync, or is PENDING_DOWNLOAD or in ERROR, however the
  -- download ended.
  handle_file_replaced-IsTracked :
      is_accepted w (at w msg e) ≡ true
      → IsNamed (at w msg e) (tracked w msg e)
      → IsTracked (at w msg e) msg (handle_file_replaced w msg e).db.files
  handle_file_replaced-IsTracked ok named =
      let left : (after_replaced w msg e).db.files ≡ (applied_replaced w msg e).db.files =
        ap (λ (x : Engine). x.db.files) (after_replaced-eq w msg e ok)
        ∙ files-leave w (at w msg e) (applied_replaced w msg e) in
      subst (IsTracked (at w msg e) msg) (sym left) (
        apply_replaced-IsTracked w (at w msg e) msg (enter w (at w msg e) e) (tracked w msg e)
          named)
