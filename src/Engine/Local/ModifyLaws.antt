-- ===== src/Engine/Local/ModifyLaws.antt =====
-- The recursion of the locked body ends: every call of itself has claimed a buffered delete.
use hermitstash_sync.Prelude.{
  ℕ, zero, suc, ◌≤◌, ◌<◌, ◌≡◌, refl, Bool, true, Option, none, some, List, [], ◌∷◌, arith, is_some,
  length, keep_if, Text, same_iff,
}
use hermitstash_sync.Engine.State.{Engine, World, Pending, on_disk, hash_of}
use hermitstash_sync.Engine.Local.Delete.{
  get_pending, drop_pending, execute_delete, execute_delete_locked, send_delete,
}
use hermitstash_sync.Engine.Local.Rename.{
  only_one, claims, rename_source, rename_step, rename_fallback,
}
use hermitstash_sync.Engine.Local.Upload.{begin_upload}
use hermitstash_sync.Engine.Local.Modify.{Change, size_of, modify_hashed, modify_locked, source_of}

length-drop_pending :
    (path : Text) (rest : List (Text × Pending)) → length (drop_pending path rest) ≤ length rest
unfolding drop_pending
length-drop_pending path [] = ground arith
length-drop_pending path ((p, old) ∷ rest) = ground (arith, length-drop_pending path rest)

length-drop_pending_found :
    (path : Text) (rest : List (Text × Pending))
    → is_some (get_pending path rest) ≡ true
    → length (drop_pending path rest) < length rest
unfolding drop_pending get_pending
length-drop_pending_found path [] h = absurd (ground arith)
length-drop_pending_found path ((p, old) ∷ rest) h =
    ground (arith, length-drop_pending path rest, length-drop_pending_found path rest)

only_one-get_pending :
    (test : Text × Pending → Bool) (rest : List (Text × Pending)) (old : Text) (pending : Pending)
    → only_one (keep_if test rest) ≡ some (old, pending)
    → is_some (get_pending old rest) ≡ true
unfolding get_pending
only_one-get_pending test [] old pending h = absurd (ground arith)
only_one-get_pending test ((p, q) ∷ rest) old pending h =
    ground (arith, same_iff p old, only_one-get_pending test rest old pending)

rename_source-claimed :
    (path : Text) (checksum size : ℕ) (rest : List (Text × Pending)) (old : Text)
    (pending : Pending)
    → rename_source path checksum size rest ≡ some (old, pending)
    → length (drop_pending old rest) < length rest
unfolding rename_source
rename_source-claimed path checksum size rest old pending h =
    length-drop_pending_found old rest
      (only_one-get_pending (claims path checksum size) rest old pending (ground arith))

pending-rename_step :
    (w : World) (old new : Text) (pending : Pending) (checksum size : ℕ) (mtime : Option ℕ)
    (e : Engine)
    → (rename_step w old new pending checksum size mtime e).1.pending_deletes ≡ e.pending_deletes
unfolding rename_step rename_fallback execute_delete execute_delete_locked send_delete
pending-rename_step w old new pending checksum size mtime e = ground arith

module _ (w : World) (path : Text) (change : Change) where
  abbrev Smaller : Engine → Engine → Type 0
  Smaller e e' = length e'.pending_deletes < length e.pending_deletes

  modify_hashed_cong :
      (checksum : ℕ) (source : Option (Text × Pending)) (f g : Engine → Engine) (e : Engine)
      → source_of w path change checksum e ≡ source
      → ((e' : Engine) → Smaller e e' → f e' ≡ g e')
      → modify_hashed w path change checksum source f e
        ≡ modify_hashed w path change checksum source g e
  unfolding modify_hashed
  modify_hashed_cong checksum none f g e h same_below = refl
  modify_hashed_cong checksum (some (old, pending)) f g e h same_below =
      let size = size_of change (on_disk w e path) in
      let freed = record e { pending_deletes = drop_pending path e.pending_deletes } in
      let claimed = record freed { pending_deletes = drop_pending old freed.pending_deletes } in
      let step = rename_step w old path pending checksum size change.mtime (begin_upload claimed) in
      let shrunk : Smaller e step.1 = ground (
        arith,
        pending-rename_step w old path pending checksum size change.mtime (begin_upload claimed),
        rename_source-claimed path checksum size freed.pending_deletes old pending h,
        length-drop_pending path e.pending_deletes,
      ) in
      rw (same_below step.1 shrunk) refl

  step_cong :
      (f g : Engine → Engine) (e : Engine) (sum : Option ℕ)
      → ((e' : Engine) → Smaller e e' → f e' ≡ g e')
      → elim sum [
        | none ↦ e
        | some checksum ↦
            modify_hashed w path change checksum (source_of w path change checksum e) f e
      ]
        ≡ elim sum [
          | none ↦ e
          | some checksum ↦
              modify_hashed w path change checksum (source_of w path change checksum e) g e
        ]
  step_cong f g e none same_below = refl
  step_cong f g e (some checksum) same_below =
      modify_hashed_cong checksum (source_of w path change checksum e) f g e refl same_below

  -- Any two amounts of fuel above the number of buffered deletes give the same result: the recursion
  -- of the locked body through a rename that fails always ends.
  pub modify_locked_fuel :
      (n m : ℕ) (e : Engine)
      → length e.pending_deletes < n
      → length e.pending_deletes < m
      → modify_locked n w path change e ≡ modify_locked m w path change e
  unfolding modify_locked
  modify_locked_fuel zero m e hn hm = absurd (omega arith)
  modify_locked_fuel (suc n) zero e hn hm = absurd (omega arith)
  modify_locked_fuel (suc n) (suc m) e hn hm =
      step_cong (modify_locked n w path change) (modify_locked m w path change) e
        (hash_of (on_disk w e path))
        (λ e' below. modify_locked_fuel n m e' (omega arith) (omega arith))
