-- ===== src/PathFilter/Unsupported.antt =====
-- A pattern that the classifier reports as unsupported matches no ordinary path.
use hermitstash_sync.Prelude.{
  ℕ, ◌≡◌, refl, sym, subst, Bool, true, false, not, ◌&&◌, ◌||◌, List, [], ◌∷◌, ◌++◌, arith, ◌==◌,
  Text, codes, same, same_iff, includes, is_empty, any, Bool-cases, inl, inr, ◌⊎◌,
}
use hermitstash_sync.PathFilter.Slices.{
  starts_with, ends_with, segments, basename, drop_end, rest, trim_slashes, last_of,
}
use hermitstash_sync.PathFilter.Segments.{
  is_prefix, is_prefix-segments, segments-eq-cons, drop_end-append,
}
use hermitstash_sync.PathFilter.{
  unsupported, match_pattern, match_basename, match_subtree, classify_folded, slash_stars,
  star_tilde, has_segment,
}

-- Whether some segment is empty: a leading, trailing or doubled slash, or the empty path.
abbrev pub has_empty : List Text → Bool
has_empty segs = any is_empty segs

-- A relative path as the engine sees them, without a star in a name.
pub record IsPlain (f : Text) : Type 0 where
  pub no_star : includes f b'*' ≡ false
  pub no_empty : has_empty (segments f) ≡ false

-- Characters of a suffix, of a segment and of the base name are characters of the text.
includes-ends_with :
    (s t : Text) (c : ℕ) → includes s c ≡ false → ends_with s t ≡ true → includes t c ≡ false
unfolding includes ends_with
includes-ends_with [] t c h e = ground (arith, same_iff [] t)
includes-ends_with (d ∷ s) t c h e = ground (arith, same_iff (d ∷ s) t, includes-ends_with s t c)

abbrev any_includes : List Text → ℕ → Bool
any_includes segs c = any (λ seg. includes seg c) segs

any_includes-segments :
    (s : Text) (c : ℕ) → includes s c ≡ false → any_includes (segments s) c ≡ false
unfolding includes segments
any_includes-segments [] c h = refl
any_includes-segments (d ∷ s) c h =
    let (seg, segs, e) = segments-eq-cons s in ground (arith, e, any_includes-segments s c)

includes-last_of :
    (seg : Text) (segs : List Text) (c : ℕ)
    → any_includes (seg ∷ segs) c ≡ false
    → includes (last_of seg segs) c ≡ false
includes-last_of seg [] c h = ground arith
includes-last_of seg (seg' ∷ segs) c h = includes-last_of seg' segs c (ground arith)

includes-trim_slashes :
    (s : Text) (c : ℕ) → includes s c ≡ false → includes (trim_slashes s) c ≡ false
unfolding includes trim_slashes
includes-trim_slashes [] c h = refl
includes-trim_slashes (d ∷ s) c h = ground (arith, includes-trim_slashes s c)

includes-basename : (s : Text) (c : ℕ) → includes s c ≡ false → includes (basename s) c ≡ false
unfolding basename
includes-basename s c h =
    let t = trim_slashes s in
    let (seg, segs, e) = segments-eq-cons t in
    rw e (
      includes-last_of seg segs c
        (rw e at (any_includes-segments t c (includes-trim_slashes s c h))))

abbrev tail : List Text → List Text
tail [] = []
tail (seg ∷ segs) = segs

-- A path that ends in a slash has an empty segment behind its first.
has_empty-tail : (s : Text) → ends_with s (codes "/") ≡ true → has_empty (tail (segments s)) ≡ true
unfolding ends_with segments same
has_empty-tail [] h = ground arith
has_empty-tail (c ∷ []) h = ground arith
has_empty-tail (c ∷ d ∷ s) h =
    let (seg, segs, e) = segments-eq-cons (d ∷ s) in ground (arith, e, has_empty-tail (d ∷ s))

has_empty-ends_with : (s : Text) → ends_with s (codes "/") ≡ true → has_empty (segments s) ≡ true
has_empty-ends_with s h =
    let (seg, segs, e) = segments-eq-cons s in ground (arith, e, has_empty-tail s h)

has_empty-starts_with :
    (s : Text) → starts_with s (codes "/") ≡ true → has_empty (segments s) ≡ true
unfolding starts_with segments
has_empty-starts_with [] h = ground arith
has_empty-starts_with (c ∷ s) h = ground arith

-- No slash is trimmed from a path whose later segments are not empty.
trim_slashes_plain : (s : Text) → has_empty (tail (segments s)) ≡ false → trim_slashes s ≡ s
unfolding trim_slashes segments
trim_slashes_plain [] h = refl
trim_slashes_plain (c ∷ []) h = ground arith
trim_slashes_plain (c ∷ d ∷ s) h =
    let (seg, segs, e) = segments-eq-cons (d ∷ s) in ground (arith, e, trim_slashes_plain (d ∷ s))

is_empty-last_of :
    (seg : Text) (segs : List Text)
    → has_empty (seg ∷ segs) ≡ false
    → is_empty (last_of seg segs) ≡ false
is_empty-last_of seg [] h = ground arith
is_empty-last_of seg (seg' ∷ segs) h = is_empty-last_of seg' segs (ground arith)

is_empty-basename : (f : Text) → has_empty (segments f) ≡ false → is_empty (basename f) ≡ false
unfolding basename
is_empty-basename f h =
    let (seg, segs, e) = segments-eq-cons f in
    let later : has_empty (tail (segments f)) ≡ false = ground (arith, e) in
    rw (trim_slashes_plain f later) (rw e (is_empty-last_of seg segs (rw e at h)))

-- Segments of a prefix are segments of the whole.
has_empty-is_prefix :
    (xs ys : List Text) → is_prefix xs ys ≡ true → has_empty ys ≡ false → has_empty xs ≡ false
has_empty-is_prefix [] ys p h = refl
has_empty-is_prefix (x ∷ xs) [] p h = ground arith
has_empty-is_prefix (x ∷ xs) (y ∷ ys) p h = ground (arith, same_iff x y, has_empty-is_prefix xs ys)

module _ (f p : Text) (plain : IsPlain f) where
  -- An unsupported pattern with a '*' in it is not the path, and no base name ends in its tail.
  star_case :
      includes p b'*' ≡ true
      → same p star_tilde ≡ false
      → (starts_with p (codes "*.") && not (includes (rest p) b'*')) ≡ false
      → match_basename (basename f) p ≡ false
  unfolding match_basename
  star_case star t s = ground (
    arith,
    includes-basename f b'*' plain.no_star,
    same_iff (basename f) p,
    includes-ends_with (basename f) (rest p) b'*',
  )

  ne_of_star : includes p b'*' ≡ true → same f p ≡ false
  ne_of_star star = ground (arith, same_iff f p, plain.no_star)

  -- Nothing plain lies at or beneath a path that begins or ends in a slash.
  not_beneath : has_empty (segments p) ≡ true → (same f p || starts_with f (p ++ codes "/")) ≡ false
  not_beneath h =
      ground (
        arith,
        is_prefix-segments p f,
        has_empty-is_prefix (segments p) (segments f),
        plain.no_empty,
      )

not_single : (c d : ℕ) (s : Text) → same (c ∷ d ∷ s) (codes "/") ≡ false
unfolding same
not_single c d s = elim (Bool-cases (c == b'/')) [ inl e ↦ rw e | inr e ↦ rw e ]

stars_end : (s : Text) → ends_with s slash_stars ≡ true → ends_with s (codes "/") ≡ false
unfolding ends_with same
stars_end [] h = ground arith
stars_end (c ∷ []) h = ground arith
stars_end (c ∷ d ∷ s) h = elim (Bool-cases (same (c ∷ d ∷ s) slash_stars)) [
  | inl whole ↦
      subst (λ (u : Text). ends_with u (codes "/") ≡ false)
        (sym ((same_iff (c ∷ d ∷ s) slash_stars).0 whole)) refl
  | inr part ↦
      let deeper : ends_with (d ∷ s) (codes "/") ≡ false = stars_end (d ∷ s) (rw part at h) in
      rw (not_single c d s) deeper
]

segments-nil : segments [] ≡ [] ∷ []
unfolding segments
segments-nil = refl

slash_head :
    (d : Text)
    → starts_with (d ++ slash_stars) (codes "/") ≡ true
    → (d ≡ []) ⊎ ((has_empty (segments d) ≡ true) × (includes d b'/' ≡ true))
unfolding starts_with segments includes
slash_head [] h = inl refl
slash_head (c ∷ d) h = inr (ground arith)

has_segment-nil : (segs : List Text) → has_segment segs [] ≡ has_empty segs
unfolding same
has_segment-nil [] = refl
has_segment-nil ([] ∷ segs) = refl
has_segment-nil ((c ∷ seg) ∷ segs) = has_segment-nil segs

module _ (f p : Text) (plain : IsPlain f) where
  -- A recursive pattern with a leading slash.
  rooted_case :
      ends_with p slash_stars ≡ true
      → starts_with p (codes "/") ≡ true
      → match_subtree f (drop_end 3 p) ≡ false
  unfolding match_subtree
  rooted_case stars root =
      let dir = drop_end 3 p in
      let rooted : starts_with (dir ++ slash_stars) (codes "/") ≡ true =
        rw (drop_end-append p slash_stars stars) root in
      elim (slash_head dir rooted) [
        | inl bare ↦ rw bare (
            ground (
              arith,
              not_beneath f [] plain,
              has_segment-nil (segments f),
              plain.no_empty,
              segments-nil,
            ))
        | inr (deep, slash) ↦ ground (arith, not_beneath f dir plain)
      ]

includes-starts_with : (p : Text) → starts_with p (codes "/") ≡ true → includes p b'/' ≡ true
unfolding starts_with includes
includes-starts_with [] h = ground arith
includes-starts_with (c ∷ p) h = ground arith

includes-ends_slash : (p : Text) → ends_with p (codes "/") ≡ true → includes p b'/' ≡ true
unfolding ends_with includes same
includes-ends_slash [] h = ground arith
includes-ends_slash (c ∷ p) h = ground (arith, includes-ends_slash p)

includes-ends_stars : (p : Text) → ends_with p slash_stars ≡ true → includes p b'*' ≡ true
unfolding includes
includes-ends_stars p h = ground (arith, includes-ends_with p slash_stars b'*')

star_subtree : (f dir : Text) → includes dir b'*' ≡ true → match_subtree f dir ≡ false
unfolding match_subtree
star_subtree f dir h = ground arith

unsupported_nonempty :
    (f p : Text)
    → IsPlain f
    → is_empty p ≡ false
    → classify_folded p ≡ unsupported
    → match_pattern f p ≡ false
unfolding match_pattern classify_folded
unsupported_nonempty f p plain full h = ground (
  arith,
  star_case f p plain,
  ne_of_star f p plain,
  not_beneath f p plain,
  rooted_case f p plain,
  stars_end p,
  has_empty-ends_with p,
  has_empty-starts_with p,
  includes-starts_with p,
  includes-ends_slash p,
  includes-ends_stars p,
  star_subtree f (drop_end 3 p),
)

tilde_full : same [] star_tilde ≡ false
unfolding same
tilde_full = refl

match_pattern-nil : (f : Text) → IsPlain f → match_pattern f [] ≡ false
unfolding match_pattern match_basename includes starts_with ends_with
match_pattern-nil f plain = ground (
  arith,
  same_iff f [],
  same_iff (basename f) [],
  is_empty-basename f plain.no_empty,
  plain.no_empty,
  segments-nil,
  tilde_full,
)

-- A pattern reported as unsupported, which the operator is warned about, matches no path that is
-- free of stars and of empty segments.
match_pattern_unsupported :
    (f p : Text) → IsPlain f → classify_folded p ≡ unsupported → match_pattern f p ≡ false
match_pattern_unsupported f [] plain h = match_pattern-nil f plain
match_pattern_unsupported f (c ∷ p) plain h = unsupported_nonempty f (c ∷ p) plain refl h
