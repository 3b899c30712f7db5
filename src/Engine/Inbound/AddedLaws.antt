-- ===== src/Engine/Inbound/AddedLaws.antt =====
-- file_added and file_replaced: bytes that were never synced survive, and the cursor passes the event
-- only with a row that records its digest.
use hermitstash_sync.Prelude.{
  ◌≡◌, ◌≢◌, ◌⊎◌, inl, inr, refl, sym, ap, subst, ◌∙◌, true, false, Option, none, some, Bool-cases,
  same_value, same_value_equal, Text, same, same_refl,
}
use hermitstash_sync.Transfer.{File}
use hermitstash_sync.StateDb.Rows.{Row, blank, get_file, get_file_folded}
use hermitstash_sync.StateDb.Laws.{get_file-write_row, relative_path-get_file}
use hermitstash_sync.Engine.State.{
  Engine, World, identity_key, on_disk, hash_of, upsert, lookup_tracked, server_checksum_of,
}
use hermitstash_sync.Engine.Cursor.{last_seq, update_seq}
use hermitstash_sync.Engine.Inbound.Gate.{FileEvent}
use hermitstash_sync.Engine.Inbound.Frame.{on_disk-cong, files-update_seq, disk-update_seq}
use hermitstash_sync.Engine.Inbound.Fetch.{IsConfirmed, fetch_event_keeps, fetch_event_honest}
use hermitstash_sync.Engine.Inbound.Added.{confirmed_row, apply_added, apply_replaced}

-- A tracked row, if there is one, carries the event's own spelling of the path.
abbrev pub IsNamed : Text → Option Row → Type 0
IsNamed path none = Unit
IsNamed path (some row) = same row.relative_path path ≡ true

IsNamed-found :
    (path : Text) (found : Option Row)
    → ((row : Row) → found ≡ some row → row.relative_path ≡ path)
    → IsNamed path found
IsNamed-found path none h = tt
IsNamed-found path (some row) h = rw (h row refl) (same_refl path)

lookup_exact :
    (w : World) (path : Text) (e : Engine)
    → w.fs_case_folds ≡ false
    → identity_key w path ≡ path
    → lookup_tracked w path e ≡ get_file path e.db.files
unfolding get_file_folded
lookup_exact w path e exact canonical = rw canonical (rw exact (keeps (get_file path e.db.files)))
  where
    keeps : (found : Option Row) → elim found [ some row ↦ some row | none ↦ none ] ≡ found
    keeps none = refl
    keeps (some row) = refl

-- A volume that does not fold case tracks no other casing.
pub lookup_tracked-IsNamed :
    (w : World) (path : Text) (e : Engine)
    → w.fs_case_folds ≡ false
    → identity_key w path ≡ path
    → IsNamed path (lookup_tracked w path e)
lookup_tracked-IsNamed w path e exact canonical =
    subst (IsNamed path) (sym (lookup_exact w path e exact canonical))
      (IsNamed-found path (get_file path e.db.files) (relative_path-get_file path e.db.files))

-- Still on the disk, under the path or as its conflict copy.
abbrev pub IsKept : World → Text → File → Engine → Type 0
IsKept w path file e =
    (on_disk w e path ≡ some file) ⊎ (on_disk w e (w.conflict_path path) ≡ some file)

-- What the conflict copy needs: a name of its own on the volume, and a rename that succeeds.
pub record CanCopy (w : World) (path : Text) : Type 0 where
  pub apart : same (w.disk_key path) (w.disk_key (w.conflict_path path)) ≡ false
  pub renames : w.rename_ok path (w.conflict_path path) ≡ true

module _ (w : World) (path : Text) (msg : FileEvent) (e : Engine) where
  -- The branch of an event whose digest the row has already.
  abbrev confirm : Row → Engine
  confirm row = update_seq w msg.seq (upsert (confirmed_row path msg row) e)

  confirm_keeps :
      (row : Row) (file : File) → on_disk w e path ≡ some file → IsKept w path file (confirm row)
  confirm_keeps row file there = inl (
      on_disk-cong w path e (confirm row)
        (disk-update_seq w msg.seq (upsert (confirmed_row path msg row) e))
      ∙ there)

  confirm-IsConfirmed :
      (row : Row)
      → same_value row.local_checksum msg.checksum ≡ true
      → IsConfirmed path msg (confirm row).db.files
  confirm-IsConfirmed row synced = record {
    row = confirmed_row path msg row;
    found =
        ap (get_file path) (files-update_seq w msg.seq (upsert (confirmed_row path msg row) e))
        ∙ get_file-write_row path (confirmed_row path msg row) e.db.files
        ∙ rw same_refl refl;
    local_matches = same_value_equal row.local_checksum msg.checksum synced;
    server_matches = refl;
  }

  pub apply_added_keeps :
      (existing : Option Row) (file : File)
      → CanCopy w path
      → IsNamed path existing
      → on_disk w e path ≡ some file
      → same_value (hash_of (some file)) msg.checksum ≡ false
      → same_value (hash_of (some file)) (server_checksum_of existing) ≡ false
      → IsKept w path file (apply_added w path msg none existing e)
  unfolding apply_added
  apply_added_keeps none file can named there differs unsynced = inr (
      fetch_event_keeps w path msg (blank path) none e file can.apart can.renames there differs
        unsynced)
  apply_added_keeps (some row) file can named there differs unsynced =
      elim (Bool-cases (same_value row.local_checksum msg.checksum)) [
        | inl synced ↦ rw named (rw synced (confirm_keeps row file there))
        | inr stale ↦ inr (
            rw named (
              rw stale (
                fetch_event_keeps w path msg (blank path) row.server_checksum e file can.apart
                  can.renames there differs unsynced)))
      ]

  pub apply_replaced_keeps :
      (existing : Option Row) (file : File)
      → CanCopy w path
      → IsNamed path existing
      → on_disk w e path ≡ some file
      → same_value (hash_of (some file)) msg.checksum ≡ false
      → same_value (hash_of (some file)) (server_checksum_of existing) ≡ false
      → IsKept w path file (apply_replaced w path msg existing e)
  unfolding apply_replaced
  apply_replaced_keeps none file can named there differs unsynced = inr (
      fetch_event_keeps w path msg (blank path) none e file can.apart can.renames there differs
        unsynced)
  apply_replaced_keeps (some row) file can named there differs unsynced =
      elim (Bool-cases (same_value row.local_checksum msg.checksum)) [
        | inl synced ↦ rw named (rw synced (confirm_keeps row file there))
        | inr stale ↦ inr (
            rw named (
              rw stale (
                fetch_event_keeps w path msg row row.server_checksum e file can.apart can.renames
                  there differs unsynced)))
      ]

  pub apply_added_honest :
      (existing : Option Row)
      → IsNamed path existing
      → last_seq (apply_added w path msg none existing e) ≢ last_seq e
      → IsConfirmed path msg (apply_added w path msg none existing e).db.files
  unfolding apply_added
  apply_added_honest none named = fetch_event_honest w path msg (blank path) none e
  apply_added_honest (some row) named =
      elim (Bool-cases (same_value row.local_checksum msg.checksum)) [
        | inl synced ↦ rw named (rw synced (λ moved. confirm-IsConfirmed row synced))
        | inr stale ↦
            rw named (rw stale (fetch_event_honest w path msg (blank path) row.server_checksum e))
      ]

  pub apply_replaced_honest :
      (existing : Option Row)
      → IsNamed path existing
      → last_seq (apply_replaced w path msg existing e) ≢ last_seq e
      → IsConfirmed path msg (apply_replaced w path msg existing e).db.files
  unfolding apply_replaced
  apply_replaced_honest none named = fetch_event_honest w path msg (blank path) none e
  apply_replaced_honest (some row) named =
      elim (Bool-cases (same_value row.local_checksum msg.checksum)) [
        | inl synced ↦ rw named (rw synced (λ moved. confirm-IsConfirmed row synced))
        | inr stale ↦ rw named (rw stale (fetch_event_honest w path msg row row.server_checksum e))
      ]
