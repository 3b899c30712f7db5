-- ===== src/Engine/Local/RenameLaws.antt =====
-- Which delete a new file may claim, and what the rename on the server leaves in the table.
use hermitstash_sync.Prelude.{
  ℕ, ◌<◌, ◌≡◌, ◌≢◌, inl, inr, ap, subst, Bool, true, false, ◌||◌, Option, none, some, List, [], ◌∷◌,
  arith, if◌then◌else◌, Bool-cases, same_value_equal, length, keep_if, Text, same, same_refl,
  is_empty,
}
use hermitstash_sync.StateDb.Rows.{get_file, synced as synced_row}
use hermitstash_sync.StateDb.Laws.{get_file-write_row}
use hermitstash_sync.StateDb.Unique.{rename_file_atomic}
use hermitstash_sync.Engine.State.{Engine, World, Pending, is_disconnected}
use hermitstash_sync.Engine.Local.Delete.{failed, delete_key}
use hermitstash_sync.Engine.Local.Rename.{
  only_one, claims, rename_source, rename_step, rename_fallback, moved_row, delete_old, unsent_row,
}

only_one-single :
    (rest : List (Text × Pending)) (entry : Text × Pending)
    → only_one rest ≡ some entry
    → rest ≡ entry ∷ []
only_one-single [] entry h = absurd (ground arith)
only_one-single (first ∷ []) entry h = ground arith
only_one-single (first ∷ other ∷ rest) entry h = absurd (ground arith)

keep_if-passes :
    (test : Text × Pending → Bool) (rest tail : List (Text × Pending)) (entry : Text × Pending)
    → keep_if test rest ≡ entry ∷ tail
    → test entry ≡ true
keep_if-passes test [] tail entry h = absurd (ground arith)
keep_if-passes test (first ∷ rest) tail entry h = elim (Bool-cases (test first)) [
  | inl passes ↦ subst (λ (x : Text × Pending). test x ≡ true) (ground arith) passes
  | inr fails ↦ keep_if-passes test rest tail entry (ground arith)
]

only_one_claims :
    (test : Text × Pending → Bool) (rest : List (Text × Pending)) (entry : Text × Pending)
    → only_one (keep_if test rest) ≡ some entry
    → (test entry ≡ true) × (length (keep_if test rest) ≡ 1)
only_one_claims test rest entry h =
    let alone = only_one-single (keep_if test rest) entry h in
    (keep_if-passes test rest [] entry alone, ap length alone)

-- A buffered delete is claimed only by a file that is not empty and has its digest, its size, and its
-- name or directory, and only if no other buffered delete fits as well.
rename_source_sound :
    (new : Text) (checksum size : ℕ) (pending_deletes : List (Text × Pending))
    (entry : Text × Pending)
    → rename_source new checksum size pending_deletes ≡ some entry
    → (0 < size)
      × (claims new checksum size entry ≡ true)
      × (length (keep_if (claims new checksum size) pending_deletes) ≡ 1)
unfolding rename_source
rename_source_sound new checksum size pending_deletes entry h =
    let (claimed, alone) =
      only_one_claims (claims new checksum size) pending_deletes entry (ground arith) in
    (ground arith, claimed, alone)

module _ (w : World) (old new : Text) (pending : Pending) (checksum size : ℕ) (mtime : Option ℕ)
    (e : Engine) where
  -- Where the server renamed, the row stands under the new name only, and it is SYNCED only if the
  -- content of the file is what the server last had.
  pub rename_step_honest :
      (seq : ℕ)
      → is_empty new ≡ false
      → w.rename_on_server old new ≡ some seq
      → let row = moved_row new pending checksum size mtime seq in
        let key = delete_key old pending.existing in
        ((name : Text)
          → get_file name (rename_step w old new pending checksum size mtime e).1.db.files ≡ (
              if same new name
              then some row
              else if same key name
              then none
              else get_file name e.db.files))
        × (row.status ≡ synced_row → pending.existing.server_checksum ≡ some checksum)
  unfolding rename_step
  rename_step_honest seq named answer =
      let key = delete_key old pending.existing in
      let row = moved_row new pending checksum size mtime seq in
      (
        (λ name.
            rw (rename_step, answer)
              (elim (rename_file_atomic key row e.db.files) [
                | inl (bare, threw, kept) ↦ absurd (ground arith)
                | inr (full, fine, rows) ↦ rows name
              ])),
        (λ is_synced.
            same_value_equal pending.existing.server_checksum (some checksum) (ground arith)),
      )

  -- Where the server did not rename, the new file is uploaded only if the delete of the old path did
  -- not fail, so that it cannot be there twice; if it failed and the engine goes on, the new file is
  -- left as a row PENDING_UPLOAD.
  pub rename_fallback_no_duplicate :
      ((rename_fallback w old new pending checksum size mtime e).0 ≡ true
        → (delete_old w old new pending e).0 ≢ failed)
      × ((delete_old w old new pending e).0 ≡ failed
          → w.safe_local_path new ≡ true
          → (w.interrupted || e.stopped || e.resyncing) ≡ false
          → is_disconnected e.state ≡ false
          → e.has_http ≡ true
          → get_file new (rename_fallback w old new pending checksum size mtime e).1.db.files
            ≡ some (unsent_row new checksum size mtime))
  unfolding rename_fallback
  rename_fallback_no_duplicate = (
    (λ again. ground arith),
    (λ no_delete safe live connected http. ground (
      arith,
      same_refl new,
      get_file-write_row new (unsent_row new checksum size mtime)
          (delete_old w old new pending e).1.db.files,
    )),
  )
