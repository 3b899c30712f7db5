-- ===== src/PathFilter/Meaning.antt =====
-- What each supported form of pattern means, in terms of path segments.
use hermitstash_sync.Prelude.{
  ◌≡◌, ◌≢◌, refl, sym, ◌∙◌, Bool, true, false, not, ◌&&◌, ◌||◌, [], ◌∷◌, ◌++◌, arith, Text, codes,
  same, same_iff, same_refl, includes, Bool-cases, inl, inr,
}
use hermitstash_sync.PathFilter.Slices.{starts_with, ends_with, segments, basename, drop_end, rest}
use hermitstash_sync.PathFilter.Segments.{
  is_prefix, is_prefix-segments, basename_single, starts_with-append_both, ends_with-rest,
  drop_end-append,
}
use hermitstash_sync.PathFilter.{
  Grammar, unsupported, tilde, ext, basename_only, recursive_dir, path_qualified, match_pattern,
  match_basename, match_subtree, classify_folded, slash_stars, star_tilde, has_segment,
}

-- The documented vocabulary. A pattern without a slash looks at the last segment. A directory
-- pattern matches the directory and all beneath it, and one of a single segment at any depth.
abbrev pub means : Grammar → Text → Text → Bool
means unsupported f p = false
means tilde f p = ends_with (basename f) (codes "~")
means ext f p = ends_with (basename f) (rest p)
means basename_only f p = same (basename f) p
means recursive_dir f p =
    let dir = drop_end 3 p in
    is_prefix (segments dir) (segments f)
    || (not (includes dir b'/') && has_segment (segments f) dir)
means path_qualified f p = is_prefix (segments p) (segments f)

basename_case :
    (f p : Text)
    → includes p b'/' ≡ false
    → (same f p || match_basename (basename f) p) ≡ match_basename (basename f) p
unfolding match_basename
basename_case f p h = elim (Bool-cases (same f p)) [
  | inl eq ↦
      let e : f ≡ p = (same_iff f p).0 eq in
      rw e (rw (basename_single p h) (ground (arith, same_refl p)))
  | inr ne ↦ rw ne
]

-- A pattern `dir/**` is itself beneath `dir`.
literal_subtree :
    (f p : Text)
    → ends_with p slash_stars ≡ true
    → same f p ≡ true
    → starts_with f (drop_end 3 p ++ codes "/") ≡ true
unfolding starts_with
literal_subtree f p h eq =
    let dir = drop_end 3 p in
    let e : f ≡ dir ++ slash_stars = (same_iff f p).0 eq ∙ sym (drop_end-append p slash_stars h) in
    rw e (starts_with-append_both dir slash_stars (codes "/"))

subtree_case :
    (f p : Text)
    → ends_with p slash_stars ≡ true
    → includes (drop_end 3 p) b'*' ≡ false
    → (same f p || match_subtree f (drop_end 3 p)) ≡ means recursive_dir f p
unfolding match_subtree
subtree_case f p h star = ground (arith, is_prefix-segments (drop_end 3 p) f, literal_subtree f p h)

path_case : (f p : Text) → (same f p || starts_with f (p ++ codes "/")) ≡ means path_qualified f p
path_case f p = sym (is_prefix-segments p f)

ext_case :
    (base p : Text)
    → same p star_tilde ≡ false
    → starts_with p (codes "*.") ≡ true
    → match_basename base p ≡ ends_with base (rest p)
unfolding match_basename
ext_case base p t s = ground (arith, same_iff base p, ends_with-rest p)

tilde_case :
    (base p : Text) → same p star_tilde ≡ true → match_basename base p ≡ ends_with base (codes "~")
unfolding match_basename ends_with starts_with same
tilde_case base p t =
    let e = (same_iff p star_tilde).0 t in rw e (ground (arith, same_iff base star_tilde))

-- A text without a star does not begin with '*.'.
no_star_dot : (p : Text) → includes p b'*' ≡ false → starts_with p (codes "*.") ≡ false
unfolding includes starts_with
no_star_dot [] star = refl
no_star_dot (c ∷ p) star = ground arith

other_case :
    (base p : Text)
    → same p star_tilde ≡ false
    → includes p b'*' ≡ false
    → match_basename base p ≡ same base p
unfolding match_basename
other_case base p t star = ground (arith, no_star_dot p star)

-- On a pattern that the classifier does not report as unsupported, the matcher does what the form
-- that it reports means.
pub match_pattern-eq-means :
    (f p : Text)
    → classify_folded p ≢ unsupported
    → match_pattern f p ≡ means (classify_folded p) f p
unfolding match_pattern classify_folded
match_pattern-eq-means f p h = ground (
  arith,
  basename_case f p,
  subtree_case f p,
  path_case f p,
  ext_case (basename f) p,
  other_case (basename f) p,
  tilde_case (basename f) p,
)
