-- ===== src/Engine/Initial/Keeps.antt =====
-- The initial sync keeps what the user had, but for files that cannot be hashed.
use hermitstash_sync.Prelude.{
  ℕ, ◌≡◌, inl, inr, refl, sym, ap, subst, ◌∙◌, Bool, true, false, not, ◌&&◌, Option, none, some,
  if◌then◌else◌, is_some, same_value, Text, same,
}
use hermitstash_sync.Transfer.{File}
use hermitstash_sync.StateDb.Rows.{get_file}
use hermitstash_sync.Engine.State.{Engine, World, identity_key, on_disk, hash_of, upsert}
use hermitstash_sync.Engine.Conflict.{maybe_save_conflict_copy}
use hermitstash_sync.Engine.Download.{download_path, wanted_size}
use hermitstash_sync.Engine.Download.Laws.{download_path-IsLocal, download_path-IsLanded}
use hermitstash_sync.Transfer.Laws.{IsWanted}
use hermitstash_sync.Engine.Inbound.Gate.{FileEvent, valid_server_path}
use hermitstash_sync.Engine.Inbound.Fetch.{conflict_copy_keeps}
use hermitstash_sync.Engine.Inbound.AddedLaws.{IsKept, CanCopy}
use hermitstash_sync.Engine.Initial.{
  matched_row, wanted_row, fetch_file, initial_file, initial_named,
}

if-holds : (P : Engine → Type 0) (t : Bool) (x y : Engine) → P x → P y → P (if t then x else y)
if-holds P true x y a b = a
if-holds P false x y a b = b

module _ (w : World) (before : Engine) (msg : FileEvent) (e : Engine) where
  abbrev path : Text
  path = identity_key w msg.relative_path

  abbrev kept_copy : Engine
  kept_copy = maybe_save_conflict_copy w path msg.checksum none e

  abbrev fetched : Engine → Bool × Engine
  fetched copied =
      download_path w path msg.file_id msg.checksum msg.size (upsert (wanted_row path msg) copied)

  none_differs : (a : Option ℕ) → same_value a none ≡ false
  none_differs none = refl
  none_differs (some a) = refl

  fetched_keeps :
      (file : File)
      → CanCopy w path
      → on_disk w e path ≡ some file
      → same_value (hash_of (some file)) msg.checksum ≡ false
      → on_disk w (fetched kept_copy).1 (w.conflict_path path) ≡ some file
  unfolding on_disk
  fetched_keeps file can there differs =
      (download_path-IsLocal w path msg.file_id msg.checksum msg.size
          (upsert (wanted_row path msg) kept_copy)).other_files
        (w.disk_key (w.conflict_path path)) can.apart
      ∙ conflict_copy_keeps w path msg.checksum none e file can.renames there differs
          (none_differs (hash_of (some file)))

  -- Whether the loop looks for a conflict.
  abbrev looks : Option ℕ → Bool
  looks local = is_some local && not (same_value local msg.checksum)

  fetch_file-eq :
      (local : Option ℕ) (copied : Engine)
      → (if looks local then kept_copy else e) ≡ copied
      → fetch_file w path msg local e ≡ (fetched copied).1
  unfolding fetch_file
  fetch_file-eq local copied h = ap (λ (c : Engine). (fetched c).1) h

  looks-stale :
      (local : Option ℕ)
      → is_some local ≡ true
      → same_value local msg.checksum ≡ false
      → (if looks local then kept_copy else e) ≡ kept_copy
  looks-stale local hashed stale = rw (hashed, stale) refl

  named_cases :
      (P : Engine → Type 0) (local : Option ℕ)
      → P e
      → P (upsert (matched_row path msg local (get_file path e.db.files)) e)
      → P (fetch_file w path msg local e)
      → P (initial_named w path msg local e)
  unfolding initial_named
  named_cases P local skip matched fetch = if-holds P (not (w.safe_path path)) e _ skip (
      if-holds P (not (valid_server_path w path)) e _ skip (
        if-holds P (is_some local && same_value local msg.checksum)
          (upsert (matched_row path msg local (get_file path e.db.files)) e)
          (fetch_file w path msg local e) matched fetch))

  abbrev named : Option ℕ → Engine
  named local = initial_named w path msg local e

  local_hash-eq :
      (o : Option File)
      → w.safe_path path ≡ true
      → on_disk w before path ≡ o
      → initial_file w before msg e ≡ named (hash_of o)
  unfolding initial_file
  local_hash-eq o safe there = ap named (rw (safe, there) refl)

  named_keeps :
      (file : File) (local : Option ℕ)
      → CanCopy w path
      → on_disk w e path ≡ some file
      → is_some local ≡ true
      → same_value local msg.checksum ≡ false
      → same_value (hash_of (some file)) msg.checksum ≡ false
      → IsKept w path file (named local)
  unfolding on_disk
  named_keeps file local can there hashed stale differs =
      named_cases (IsKept w path file) local (inl there) (inl there) (
        inr (
          ap (λ (x : Engine). on_disk w x (w.conflict_path path))
            (fetch_file-eq local kept_copy (looks-stale local hashed stale))
          ∙ fetched_keeps file can there differs))

  -- Where a conflict copy can be made, what the user has at the path of a file of the bundle, with
  -- other bytes than the server's, is still there after the initial sync took up that file, at its path
  -- or as the conflict copy, if it could be hashed.
  pub initial_file_keeps :
      (file : File)
      → CanCopy w path
      → w.safe_path path ≡ true
      → on_disk w before path ≡ some file
      → on_disk w e path ≡ some file
      → is_some (hash_of (some file)) ≡ true
      → same_value (hash_of (some file)) msg.checksum ≡ false
      → IsKept w path file (initial_file w before msg e)
  initial_file_keeps file can safe was there hashed differs =
      subst (IsKept w path file) (sym (local_hash-eq (some file) safe was))
        (named_keeps file (hash_of (some file)) can there hashed differs differs)

  unhashed-eq :
      w.safe_path path ≡ true → valid_server_path w path ≡ true → named none ≡ (fetched e).1
  unfolding initial_named
  unhashed-eq safe valid = rw (safe, valid) (fetch_file-eq none e refl)

  -- A file at the path that cannot be hashed, being unreadable or over the limit of the hash, is
  -- replaced by a download that succeeds: then the path has a file that meets the wanted digest and
  -- size, and what is at the place of the conflict copy is what was there before.
  pub initial_file_replaces_unhashed :
      (file : File)
      → same (w.disk_key path) (w.disk_key (w.conflict_path path)) ≡ false
      → w.safe_path path ≡ true
      → valid_server_path w path ≡ true
      → on_disk w before path ≡ some file
      → hash_of (some file) ≡ none
      → (fetched e).0 ≡ true
      → let e' = initial_file w before msg e in
        ((new : File) × (on_disk w e' path ≡ some new)
          × IsWanted w.max_file_bytes msg.checksum (wanted_size msg.size) new)
        × (on_disk w e' (w.conflict_path path) ≡ on_disk w e (w.conflict_path path))
  unfolding on_disk
  initial_file_replaces_unhashed file apart safe valid was unhashed done =
      let landed =
        download_path-IsLanded w path msg.file_id msg.checksum msg.size
          (upsert (wanted_row path msg) e) done in
      let local =
        download_path-IsLocal w path msg.file_id msg.checksum msg.size
          (upsert (wanted_row path msg) e) in
      rw (local_hash-eq (some file) safe was ∙ ap named unhashed ∙ unhashed-eq safe valid) (
        (landed.file, landed.placed, landed.wanted),
        local.other_files (w.disk_key (w.conflict_path path)) apart,
      )
