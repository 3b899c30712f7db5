-- ===== src/Engine/Recover/Laws.antt =====
-- A sweep keeps what was not synced, and calls a row converged only when it is.
use hermitstash_sync.Prelude.{
  ℕ, ◌≡◌, inl, inr, refl, sym, ap, subst, ◌∙◌, Bool, true, false, not, ◌&&◌, ◌||◌, Option, none,
  some, arith, ltb, if◌then◌else◌, same_value, any, Text, same, same_refl,
}
use hermitstash_sync.Transfer.{File}
use hermitstash_sync.StateDb.Rows.{Row, Files, get_file, synced as synced_row}
use hermitstash_sync.StateDb.Laws.{get_file-write_row}
use hermitstash_sync.Engine.State.{Engine, World, on_disk, hash_of, upsert}
use hermitstash_sync.Engine.Suppress.{suppress, release}
use hermitstash_sync.Engine.Conflict.{maybe_save_conflict_copy}
use hermitstash_sync.Engine.Download.{download_path, landed_row, lacks}
use hermitstash_sync.Engine.Download.Laws.{download_path-IsLocal, download_path-IsLanded}
use hermitstash_sync.Engine.Inbound.Fetch.{conflict_copy_keeps}
use hermitstash_sync.Engine.Inbound.AddedLaws.{IsKept, CanCopy}
use hermitstash_sync.Engine.Recover.{recover_row, recover_named, redrive, converged_row}

-- A row in sync with what the server holds.
pub record IsConverged (path : Text) (checksum : ℕ) (files : Files) : Type 0 where
  pub row : Row
  pub found : get_file path files ≡ some row
  pub in_sync : row.status ≡ synced_row
  pub local_matches : row.local_checksum ≡ some checksum

if-holds :
    (P : Bool × Engine → Type 0) (t : Bool) (x y : Bool × Engine)
    → P x
    → P y
    → P (if t then x else y)
if-holds P true x y a b = a
if-holds P false x y a b = b

module _ (w : World) (row : Row) (id checksum : ℕ) (e : Engine) where
  abbrev path : Text
  path = row.relative_path

  abbrev copied : Engine
  copied = maybe_save_conflict_copy w path (some checksum) none (suppress w path e)

  abbrev fetched : Bool × Engine
  fetched = download_path w path (some id) (some checksum) row.size copied

  abbrev converged : Engine
  converged = upsert (converged_row path id checksum (get_file path e.db.files)) e

  named_cases :
      (P : Bool × Engine → Type 0)
      → P (false, e)
      → P (true, converged)
      → P (redrive w row id checksum e)
      → P (recover_named w row id checksum e)
  unfolding recover_named
  named_cases P skip done again =
      if-holds P (any (same path) e.permanent_failures || not (w.safe_path path)) _ _ skip (
        if-holds P (same_value (hash_of (on_disk w e path)) (some checksum)) _ _ done
          (if-holds P (ltb 0 row.needs_bytes && lacks w.free_space row.needs_bytes) _ _ skip again))

  redrive_keeps :
      (file : File)
      → CanCopy w path
      → on_disk w e path ≡ some file
      → same_value (hash_of (some file)) (some checksum) ≡ false
      → on_disk w (redrive w row id checksum e).1 (w.conflict_path path) ≡ some file
  unfolding redrive release on_disk suppress
  redrive_keeps file can there differs =
      (download_path-IsLocal w path (some id) (some checksum) row.size copied).other_files
        (w.disk_key (w.conflict_path path)) can.apart
      ∙ conflict_copy_keeps w path (some checksum) none (suppress w path e) file can.renames there
          differs (none_differs (hash_of (some file)))
    where
      none_differs : (a : Option ℕ) → same_value a none ≡ false
      none_differs none = refl
      none_differs (some a) = refl

  recover_named_keeps :
      (file : File)
      → CanCopy w path
      → on_disk w e path ≡ some file
      → same_value (hash_of (some file)) (some checksum) ≡ false
      → IsKept w path file (recover_named w row id checksum e).1
  unfolding on_disk
  recover_named_keeps file can there differs =
      named_cases (λ r. IsKept w path file r.1) (inl there) (inl there)
        (inr (redrive_keeps file can there differs))

  redrive-IsConverged :
      (redrive w row id checksum e).0 ≡ true
      → IsConverged path checksum (redrive w row id checksum e).1.db.files
  unfolding redrive release
  redrive-IsConverged done =
      let l = download_path-IsLanded w path (some id) (some checksum) row.size copied done in
      record {
        row = landed_row path (some checksum) l.file (get_file path copied.db.files);
        found = l.tracked;
        in_sync = refl;
        local_matches = refl;
      }

  recover_named-IsConverged :
      (recover_named w row id checksum e).0 ≡ true
      → IsConverged path checksum (recover_named w row id checksum e).1.db.files
  recover_named-IsConverged =
      named_cases (λ r. r.0 ≡ true → IsConverged path checksum r.1.db.files)
        (λ done. absurd (ground arith))
        (λ done. record {
          row = converged_row path id checksum (get_file path e.db.files);
          found = ground (
            arith,
            same_refl path,
            get_file-write_row path (converged_row path id checksum (get_file path e.db.files))
                e.db.files,
          );
          in_sync = refl;
          local_matches = refl;
        })
        redrive-IsConverged

module _ (w : World) (row : Row) (e : Engine) where
  by_name :
      (P : Bool × Engine → Type 0) (id checksum : Option ℕ)
      → row.server_file_id ≡ id
      → row.server_checksum ≡ checksum
      → P (false, e)
      → ((i c : ℕ) → row.server_checksum ≡ some c → P (recover_named w row i c e))
      → P (recover_row w row e)
  unfolding recover_row
  by_name P none checksum hi hc skip go = rw hi (if-holds P _ _ _ skip skip)
  by_name P (some i) none hi hc skip go = rw hi (rw hc (if-holds P _ _ _ skip skip))
  by_name P (some i) (some c) hi hc skip go = rw hi (rw hc (if-holds P _ _ _ skip (go i c hc)))

  -- Where a conflict copy can be made, bytes that are not the server's are still there after the sweep
  -- took up their row, under their path or as the conflict copy.
  pub recover_row_keeps :
      (file : File)
      → CanCopy w row.relative_path
      → on_disk w e row.relative_path ≡ some file
      → same_value (hash_of (some file)) row.server_checksum ≡ false
      → IsKept w row.relative_path file (recover_row w row e).1
  recover_row_keeps file can there differs =
      by_name (λ r. IsKept w row.relative_path file r.1) row.server_file_id row.server_checksum refl
        refl (inl there)
        (λ i c h.
          recover_named_keeps w row i c e file can there
            (ap (same_value (hash_of (some file))) (sym h) ∙ differs))

  -- A row that the sweep counts as landed is in sync, with the digest that the server holds.
  recover_row-IsConverged :
      (checksum : ℕ)
      → row.server_checksum ≡ some checksum
      → (recover_row w row e).0 ≡ true
      → IsConverged row.relative_path checksum (recover_row w row e).1.db.files
  recover_row-IsConverged checksum known =
      by_name (λ r. r.0 ≡ true → IsConverged row.relative_path checksum r.1.db.files)
        row.server_file_id row.server_checksum refl refl (λ done. absurd (ground arith))
        (λ i c h.
          subst
            (λ (n : ℕ).
              (recover_named w row i n e).0 ≡ true
              → IsConverged row.relative_path checksum (recover_named w row i n e).1.db.files)
            (ground (arith, h, known)) (recover_named-IsConverged w row i checksum e))
