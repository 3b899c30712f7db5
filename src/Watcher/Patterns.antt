-- ===== src/Watcher/Patterns.antt =====
-- lib/watcher.js: the ignore patterns that are handed to the framework's walk.
use hermitstash_sync.Prelude.{
  ℕ, Bool, true, false, not, ◌&&◌, ◌||◌, List, [], ◌∷◌, ◌++◌, if◌then◌else◌, Text, same, same_iff,
  is_empty, any, keep_if, length, leb, ◌==◌, ◌≡◌, inl, inr, refl, sym, ap, ◌∙◌, Bool-cases, arith,
}
use hermitstash_sync.PathFilter.{
  Runtime, Grammar, recursive_dir, path_qualified, classify_pattern, replace_all,
}

-- What the wrapper takes from the runtime and from the framework: `String.prototype.normalize('NFD')`
-- and the two caps of `b.watcher`.
pub record Caps : Type 0 where
  pub rt : Runtime
  pub nfd : Text → Text
  pub max_len : ℕ
  pub max_stars : ℕ

abbrev pub is_subtree_kind : Grammar → Bool
is_subtree_kind recursive_dir = true
is_subtree_kind path_qualified = true
is_subtree_kind _ = false

abbrev pub has_text : Text → List Text → Bool
has_text f fs = any (λ g. same g f) fs

module _ (caps : Caps) where
  abbrev pub is_subtree : Text → Bool
  is_subtree p = is_subtree_kind (classify_pattern caps.rt p)

  -- The spellings of one pattern that are forwarded.
  abbrev pub pattern_forms : Text → List Text
  pattern_forms p =
      let slashed = replace_all b'\\' b'/' p in
      slashed ∷ caps.rt.nfc slashed ∷ caps.nfd slashed ∷ []

  abbrev pub fits_caps : Text → Bool
  fits_caps form =
      not (is_empty form || not (leb (length form) caps.max_len))
      && leb (length (keep_if (λ c. c == b'*') form)) caps.max_stars

  -- `seen` holds what `out` holds.
  abbrev pub add_form : List Text → Text → List Text
  add_form out form =
      if has_text form out then out else if not (fits_caps form) then out else out ++ form ∷ []

  abbrev pub add_forms : List Text → List Text → List Text
  add_forms out [] = out
  add_forms out (form ∷ forms) = add_forms (add_form out form) forms

  abbrev pub add_patterns : List Text → List Text → List Text
  add_patterns out [] = out
  add_patterns out (p ∷ ps) =
      add_patterns (if is_subtree p then add_forms out (pattern_forms p) else out) ps

  -- `_dirPrefixIgnores`
  unfoldable pub dir_prefix_ignores : List Text → List Text
  dir_prefix_ignores patterns = add_patterns [] patterns

  any-append :
      (f : Text) (xs ys : List Text) → has_text f (xs ++ ys) ≡ (has_text f xs || has_text f ys)
  any-append f [] ys = refl
  any-append f (x ∷ xs) ys = elim (Bool-cases (same x f)) [
    | inl h ↦ rw h refl
    | inr h ↦ rw h (any-append f xs ys)
  ]

  has_form-same : (f g : Text) (out : List Text) → same g f ≡ true → has_text g out ≡ has_text f out
  has_form-same f g out h = ap (λ t. has_text t out) ((same_iff g f).0 h)

  or_known : (x b c : Bool) → (b ≡ true → x ≡ true) → x ≡ (x || (b && c))
  or_known x true c eq = rw (eq refl) refl
  or_known x false c eq = ground arith

  has_text-add_form :
      (f : Text) (out : List Text) (g : Text)
      → has_text f (add_form out g) ≡ (has_text f out || (same g f && fits_caps g))
  has_text-add_form f out g = elim (Bool-cases (has_text g out)) [
    | inl h ↦ rw h (
        or_known (has_text f out) (same g f) (fits_caps g)
          (λ eq. sym (has_form-same f g out eq) ∙ h))
    | inr h ↦ rw h (elim (Bool-cases (fits_caps g)) [
      | inl fits ↦ rw (fits, any-append f out (g ∷ [])) (ground arith)
      | inr over ↦ rw over (ground arith)
    ])
  ]

  fits_same : (f g : Text) → (same g f && fits_caps g) ≡ (same g f && fits_caps f)
  fits_same f g = elim (Bool-cases (same g f)) [
    | inl h ↦ rw h (ap fits_caps ((same_iff g f).0 h))
    | inr h ↦ rw h refl
  ]

  distrib : (x a b c : Bool) → ((x || (a && c)) || (b && c)) ≡ (x || ((a || b) && c))
  distrib x a b c = ground arith

  has_text-add_forms :
      (f : Text) (out forms : List Text)
      → has_text f (add_forms out forms) ≡ (has_text f out || (has_text f forms && fits_caps f))
  has_text-add_forms f out [] = ground arith
  has_text-add_forms f out (g ∷ gs) =
      has_text-add_forms f (add_form out g) gs
      ∙ ap (λ b. b || (has_text f gs && fits_caps f))
          (has_text-add_form f out g ∙ ap (λ b. has_text f out || b) (fits_same f g))
      ∙ distrib (has_text f out) (same g f) (has_text f gs) (fits_caps f)

  -- Some pattern of the list excludes a subtree and is spelled so.
  abbrev pub is_asked : Text → List Text → Bool
  is_asked f ps = any (λ p. is_subtree p && has_text f (pattern_forms p)) ps

  asked_one : (x a b c d : Bool) → ((x || (b && c)) || (d && c)) ≡ (x || ((b || d) && c))
  asked_one x a b c d = ground arith

  has_text-add_patterns :
      (f : Text) (out ps : List Text)
      → has_text f (add_patterns out ps) ≡ (has_text f out || (is_asked f ps && fits_caps f))
  has_text-add_patterns f out [] = ground arith
  has_text-add_patterns f out (p ∷ ps) = elim (Bool-cases (is_subtree p)) [
    | inl h ↦ rw h (
        has_text-add_patterns f (add_forms out (pattern_forms p)) ps
        ∙ ap (λ b. b || (is_asked f ps && fits_caps f)) (has_text-add_forms f out (pattern_forms p))
        ∙ distrib (has_text f out) (has_text f (pattern_forms p)) (is_asked f ps) (fits_caps f))
    | inr h ↦ rw h (has_text-add_patterns f out ps)
  ]

  -- What is forwarded, in the terms of the loop.
  pub has_text-dir_prefix_ignores :
      (f : Text) (ps : List Text)
      → has_text f (dir_prefix_ignores ps) ≡ (is_asked f ps && fits_caps f)
  unfolding dir_prefix_ignores
  has_text-dir_prefix_ignores f ps = has_text-add_patterns f [] ps
