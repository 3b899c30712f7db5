-- ===== src/Watcher/Forwarded.antt =====
-- lib/watcher.js: which patterns the framework's walk is given.
use hermitstash_sync.Prelude.{
  ℕ, suc, ◌≤◌, ◌<◌, true, false, List, [], ◌∷◌, if◌then◌else◌, Text, same, same_iff, is_empty,
  keep_if, length, ◌==◌, ◌≡◌, ◌⊎◌, ◌↔◌, refl, sym, arith,
}
use hermitstash_sync.PathFilter.{
  Grammar, recursive_dir, path_qualified, classify_pattern, replace_all,
}
use hermitstash_sync.Watcher.Patterns.{
  Caps, is_subtree_kind, is_subtree, pattern_forms, fits_caps, has_text, is_asked,
  dir_prefix_ignores, has_text-dir_prefix_ignores,
}

-- The number of stars in a text.
abbrev pub stars : Text → ℕ
stars [] = 0
stars (c ∷ cs) = let rest = stars cs in if c == b'*' then suc rest else rest

stars_lem : (t : Text) → length (keep_if (λ c. c == b'*') t) ≡ stars t
stars_lem [] = refl
stars_lem (c ∷ cs) = ground (arith, stars_lem cs)

empty_lem : (t : Text) → (is_empty t ≡ false) ↔ (0 < length t)
empty_lem [] = ground arith
empty_lem (c ∷ cs) = ground arith

module _ (caps : Caps) (f : Text) where
  -- The pattern excludes a subtree.
  abbrev pub ExcludesSubtree : Text → Type 0
  ExcludesSubtree p =
      (classify_pattern caps.rt p ≡ recursive_dir) ⊎ (classify_pattern caps.rt p ≡ path_qualified)

  -- The text is the pattern with '/' for '\', as it is, in NFC, or in NFD.
  abbrev pub IsSpelling : Text → Type 0
  IsSpelling p =
      (f ≡ replace_all b'\\' b'/' p)
      ⊎ ((f ≡ caps.rt.nfc (replace_all b'\\' b'/' p)) ⊎ (f ≡ caps.nfd (replace_all b'\\' b'/' p)))

  -- Some pattern of the list excludes a subtree and has this spelling.
  abbrev pub IsWanted : List Text → Type 0
  IsWanted [] = ⊥
  IsWanted (p ∷ ps) = (ExcludesSubtree p × IsSpelling p) ⊎ IsWanted ps

  -- What the framework takes without throwing.
  abbrev pub IsTaken : Type 0
  IsTaken = (0 < length f) × (length f ≤ caps.max_len) × (stars f ≤ caps.max_stars)

  subtree_lem : (p : Text) → (is_subtree caps p ≡ true) ↔ ExcludesSubtree p
  subtree_lem p = kind_lem (classify_pattern caps.rt p)
    where
      kind_lem :
          (g : Grammar) → (is_subtree_kind g ≡ true) ↔ ((g ≡ recursive_dir) ⊎ (g ≡ path_qualified))
      kind_lem g = ground arith

  same_turned : (s : Text) → (same s f ≡ true) ↔ (f ≡ s)
  same_turned s = ((λ h. sym ((same_iff s f).0 h)), (λ h. (same_iff s f).1 (sym h)))

  spelling_lem : (p : Text) → (has_text f (pattern_forms caps p) ≡ true) ↔ IsSpelling p
  spelling_lem p =
      let slashed = replace_all b'\\' b'/' p in
      ground (
        arith,
        same_turned slashed,
        same_turned (caps.rt.nfc slashed),
        same_turned (caps.nfd slashed),
      )

  asked_lem : (ps : List Text) → (is_asked caps f ps ≡ true) ↔ IsWanted ps
  asked_lem [] = ground arith
  asked_lem (p ∷ ps) = ground (arith, subtree_lem p, spelling_lem p, asked_lem ps)

  taken_lem : (fits_caps caps f ≡ true) ↔ IsTaken
  taken_lem = ground (arith, stars_lem f, empty_lem f)

  -- A text is forwarded to the framework's walk exactly when it spells a pattern of the ignore list that
  -- excludes a subtree, with '/' for '\' and as it is, in NFC or in NFD, and the framework takes it:
  -- neither empty nor longer, nor with more stars, than its caps allow.
  pub dir_prefix_ignores_iff :
      (ps : List Text) → (has_text f (dir_prefix_ignores caps ps) ≡ true) ↔ (IsWanted ps × IsTaken)
  dir_prefix_ignores_iff ps =
      ground (arith, has_text-dir_prefix_ignores caps f ps, asked_lem ps, taken_lem)
