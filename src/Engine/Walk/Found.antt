-- ===== src/Engine/Walk/Found.antt =====
-- What the walk finds, independently of its order.
use hermitstash_sync.Prelude.{
  ◌≡◌, ◌⊎◌, ◌↔◌, inl, inr, refl, Bool, true, false, Option, none, some, List, [], ◌∷◌, ◌++◌, arith,
  if◌then◌else◌, is_some, Text, subst, sym, same, same_iff, same_refl, any, ◌||◌,
}
use hermitstash_sync.Engine.State.{World}
use hermitstash_sync.Engine.Walk.{
  Folder, Entries, unreadable, readable, no_more, file, folder, other, is_temp_name, is_ignored_dir,
  slash, append_found, walk_dir, walk_entries,
}

-- The folder holds a file of a name, under the directories of a list.
mutual
  pub data Holds : Folder → List Text → Text → Type 0 where
    inside :
        {entries : Entries} {dirs : List Text} {name : Text}
        → HoldsIn entries dirs name
        → Holds (readable entries) dirs name

  pub data HoldsIn : Entries → List Text → Text → Type 0 where
    here : {name : Text} {entries : Entries} → HoldsIn (file name entries) [] name
    below :
        {dir : Text} {f : Folder} {entries : Entries} {dirs : List Text} {name : Text}
        → Holds f dirs name
        → HoldsIn (folder dir f entries) (dir ∷ dirs) name
    past_file :
        {n : Text} {entries : Entries} {dirs : List Text} {name : Text}
        → HoldsIn entries dirs name
        → HoldsIn (file n entries) dirs name
    past_folder :
        {dir : Text} {f : Folder} {entries : Entries} {dirs : List Text} {name : Text}
        → HoldsIn entries dirs name
        → HoldsIn (folder dir f entries) dirs name
    past_other :
        {entries : Entries} {dirs : List Text} {name : Text}
        → HoldsIn entries dirs name
        → HoldsIn (other entries) dirs name

abbrev pub path_of : Text → List Text → Text → Text
path_of prefix [] name = prefix ++ name
path_of prefix (dir ∷ dirs) name = path_of ((prefix ++ dir) ++ slash) dirs name

-- None of the directories on the way is ignored.
abbrev pub IsOpen : World → Text → List Text → Type 0
IsOpen w prefix [] = Unit
IsOpen w prefix (dir ∷ dirs) =
    (is_ignored_dir w (prefix ++ dir) ≡ false) × IsOpen w ((prefix ++ dir) ++ slash) dirs

abbrev pub Lists : Option (List Text) → Text → Type 0
Lists none p = ⊥
Lists (some ps) p = any (same p) ps ≡ true

-- A file of the folder that is to be looked at: no temporary one, and in no ignored directory.
abbrev pub IsDue : World → Text → Folder → Text → Type 0
IsDue w prefix f p =
    (dirs : List Text) × (name : Text) × Holds f dirs name
    × (is_temp_name name ≡ false)
    × IsOpen w prefix dirs
    × (p ≡ path_of prefix dirs name)

abbrev IsDueIn : World → Text → Entries → Text → Type 0
IsDueIn w prefix entries p =
    (dirs : List Text) × (name : Text) × HoldsIn entries dirs name
    × (is_temp_name name ≡ false)
    × IsOpen w prefix dirs
    × (p ≡ path_of prefix dirs name)

any-append :
    (p : Text) (xs ys : List Text) → any (same p) (xs ++ ys) ≡ (any (same p) xs || any (same p) ys)
any-append p [] ys = refl
any-append p (x ∷ xs) ys = ground (arith, any-append p xs ys)

Lists-append :
    (a b : Option (List Text)) (p : Text) → Lists (append_found a b) p → Lists a p ⊎ Lists b p
Lists-append (some xs) (some ys) p h = ground (arith, any-append p xs ys, h)
Lists-append none b p h = absurd h
Lists-append (some xs) none p h = absurd h

listed_file :
    (b : Bool) (p q : Text) → any (same p) (if b then [] else q ∷ []) ≡ true → (b ≡ false) × (p ≡ q)
listed_file true p q h = absurd (ground (arith, h))
listed_file false p q h = (refl, (same_iff p q).0 (ground (arith, h)))

listed_folder :
    (b : Bool) (o : Option (List Text)) (p : Text)
    → Lists (if b then some [] else o) p
    → (b ≡ false) × Lists o p
listed_folder true o p h = absurd (ground (arith, h))
listed_folder false o p h = (refl, h)

abbrev below_of : World → Text → Text → Folder → Option (List Text)
below_of w prefix dir f =
    if is_ignored_dir w (prefix ++ dir) then some [] else walk_dir w ((prefix ++ dir) ++ slash) f

mutual
  unfolding walk_dir walk_entries

  walk_dir-IsDue :
      (w : World) (prefix : Text) (f : Folder) (p : Text)
      → Lists (walk_dir w prefix f) p
      → IsDue w prefix f p
  walk_dir-IsDue w prefix unreadable p h = absurd h
  walk_dir-IsDue w prefix (readable entries) p h =
      let (dirs, name, held, kept, opened, at) = walk_entries-IsDueIn w prefix entries p h in
      (dirs, name, inside held, kept, opened, at)

  walk_entries-IsDueIn :
      (w : World) (prefix : Text) (entries : Entries) (p : Text)
      → Lists (walk_entries w prefix entries) p
      → IsDueIn w prefix entries p
  walk_entries-IsDueIn w prefix no_more p h = absurd (ground (arith, h))
  walk_entries-IsDueIn w prefix (file name entries) p h =
      elim (Lists-append (some (if is_temp_name name then [] else (prefix ++ name) ∷ []))
        (walk_entries w prefix entries) p h) [
          | inl now ↦
              let (kept, at) = listed_file (is_temp_name name) p (prefix ++ name) now in
              ([], name, here, kept, tt, at)
          | inr later ↦
              let (dirs, n, held, kept, opened, at) =
                walk_entries-IsDueIn w prefix entries p later in
              (dirs, n, past_file held, kept, opened, at)
        ]
  walk_entries-IsDueIn w prefix (folder dir f entries) p h =
      elim (Lists-append (below_of w prefix dir f) (walk_entries w prefix entries) p h) [
        | inl now ↦
            let (free, there) =
              listed_folder (is_ignored_dir w (prefix ++ dir))
                (walk_dir w ((prefix ++ dir) ++ slash) f) p now in
            let (dirs, n, held, kept, opened, at) =
              walk_dir-IsDue w ((prefix ++ dir) ++ slash) f p there in
            (dir ∷ dirs, n, below held, kept, (free, opened), at)
        | inr later ↦
            let (dirs, n, held, kept, opened, at) = walk_entries-IsDueIn w prefix entries p later in
            (dirs, n, past_folder held, kept, opened, at)
      ]
  walk_entries-IsDueIn w prefix (other entries) p h =
      let (dirs, name, held, kept, opened, at) = walk_entries-IsDueIn w prefix entries p h in
      (dirs, name, past_other held, kept, opened, at)

append-Lists :
    (a b : Option (List Text)) (p : Text)
    → is_some (append_found a b) ≡ true
    → (is_some a ≡ true) × (is_some b ≡ true)
append-Lists (some xs) (some ys) p h = (refl, refl)
append-Lists (some xs) none p h = absurd (ground (arith, h))
append-Lists none b p h = absurd (ground (arith, h))

left-Lists :
    (a b : Option (List Text)) (p : Text)
    → is_some (append_found a b) ≡ true
    → Lists a p
    → Lists (append_found a b) p
left-Lists (some xs) (some ys) p done h = ground (arith, any-append p xs ys, h)
left-Lists (some xs) none p done h = absurd (ground (arith, done))
left-Lists none b p done h = absurd h

right-Lists :
    (a b : Option (List Text)) (p : Text)
    → is_some (append_found a b) ≡ true
    → Lists b p
    → Lists (append_found a b) p
right-Lists (some xs) (some ys) p done h = ground (arith, any-append p xs ys, h)
right-Lists (some xs) none p done h = absurd h
right-Lists none b p done h = absurd (ground (arith, done))

entered_done :
    (b : Bool) (o : Option (List Text))
    → b ≡ false
    → is_some (if b then some [] else o) ≡ true
    → is_some o ≡ true
entered_done false o free done = done
entered_done true o free done = absurd (ground (arith, free))

entered-Lists :
    (b : Bool) (o : Option (List Text)) (p : Text)
    → b ≡ false
    → Lists o p
    → Lists (if b then some [] else o) p
entered-Lists false o p free h = h
entered-Lists true o p free h = absurd (ground (arith, free))

mutual
  unfolding walk_dir walk_entries

  Holds-Lists :
      (w : World) (prefix : Text) (f : Folder) (dirs : List Text) (name : Text)
      → Holds f dirs name
      → is_temp_name name ≡ false
      → IsOpen w prefix dirs
      → is_some (walk_dir w prefix f) ≡ true
      → Lists (walk_dir w prefix f) (path_of prefix dirs name)
  Holds-Lists w prefix unreadable dirs name held kept opened done = elim held [ ]
  Holds-Lists w prefix (readable entries) dirs name (inside held) kept opened done =
      HoldsIn-Lists w prefix entries dirs name held kept opened done

  HoldsIn-Lists :
      (w : World) (prefix : Text) (entries : Entries) (dirs : List Text) (name : Text)
      → HoldsIn entries dirs name
      → is_temp_name name ≡ false
      → IsOpen w prefix dirs
      → is_some (walk_entries w prefix entries) ≡ true
      → Lists (walk_entries w prefix entries) (path_of prefix dirs name)
  HoldsIn-Lists w prefix no_more dirs name held kept opened done = elim held [ ]
  HoldsIn-Lists w prefix (file n entries) [] name here kept opened done =
      left-Lists (some (if is_temp_name name then [] else (prefix ++ name) ∷ []))
        (walk_entries w prefix entries) (prefix ++ name) done
        (rw kept (ground (arith, same_refl (prefix ++ name))))
  HoldsIn-Lists w prefix (file n entries) dirs name (past_file held) kept opened done =
      let parts =
        append-Lists (some (if is_temp_name n then [] else (prefix ++ n) ∷ []))
          (walk_entries w prefix entries) name done in
      right-Lists (some (if is_temp_name n then [] else (prefix ++ n) ∷ []))
        (walk_entries w prefix entries) (path_of prefix dirs name) done
        (HoldsIn-Lists w prefix entries dirs name held kept opened parts.1)
  HoldsIn-Lists w prefix (folder dir f entries) (d ∷ dirs) name (below held) kept (free, opened)
        done =
      let parts =
        append-Lists (below_of w prefix dir f) (walk_entries w prefix entries) name done in
      left-Lists (below_of w prefix dir f) (walk_entries w prefix entries)
        (path_of ((prefix ++ dir) ++ slash) dirs name) done
        (entered-Lists (is_ignored_dir w (prefix ++ dir)) (walk_dir w ((prefix ++ dir) ++ slash) f)
          (path_of ((prefix ++ dir) ++ slash) dirs name) free
          (Holds-Lists w ((prefix ++ dir) ++ slash) f dirs name held kept opened (
            entered_done (is_ignored_dir w (prefix ++ dir))
              (walk_dir w ((prefix ++ dir) ++ slash) f) free parts.0)))
  HoldsIn-Lists w prefix (folder dir f entries) dirs name (past_folder held) kept opened done =
      let parts =
        append-Lists (below_of w prefix dir f) (walk_entries w prefix entries) name done in
      right-Lists (below_of w prefix dir f) (walk_entries w prefix entries)
        (path_of prefix dirs name) done
        (HoldsIn-Lists w prefix entries dirs name held kept opened parts.1)
  HoldsIn-Lists w prefix (other entries) dirs name (past_other held) kept opened done =
      HoldsIn-Lists w prefix entries dirs name held kept opened done

-- A walk of the sync folder that reads every directory it enters finds exactly the files that some
-- chain of directories leads to, where none of these is ignored and the name is not that of a
-- temporary file; a symbolic link leads nowhere.
pub walk_dir_finds :
    (w : World) (prefix : Text) (f : Folder) (p : Text)
    → is_some (walk_dir w prefix f) ≡ true
    → Lists (walk_dir w prefix f) p ↔ IsDue w prefix f p
walk_dir_finds w prefix f p done = (
  walk_dir-IsDue w prefix f p,
  λ (dirs, name, held, kept, opened, at).
      subst (Lists (walk_dir w prefix f)) (sym at)
        (Holds-Lists w prefix f dirs name held kept opened done),
)
