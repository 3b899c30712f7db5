-- ===== src/PathFilter/Segments.antt =====
-- Paths as lists of segments: what `split('/')`, `startsWith` and `basename` mean there.
use hermitstash_sync.Prelude.{
  ℕ, suc, ◌-◌, ◌≤◌, ◌≡◌, refl, ap, Bool, true, false, ◌&&◌, ◌||◌, List, [], ◌∷◌, ◌++◌, arith, ◌==◌,
  Text, codes, same, same_iff, same_refl, includes, length, Bool-cases, inl, inr,
}
use hermitstash_sync.PathFilter.Slices.{
  starts_with, ends_with, segments, extend, trim_slashes, basename, take, drop_end, rest,
}

-- `xs` is a prefix of `ys`, segment by segment.
abbrev pub is_prefix : List Text → List Text → Bool
is_prefix [] ys = true
is_prefix (x ∷ xs) [] = false
is_prefix (x ∷ xs) (y ∷ ys) = same x y && is_prefix xs ys

pub segments-eq-cons : (s : Text) → (seg : Text) × (segs : List Text) × (segments s ≡ seg ∷ segs)
unfolding segments
segments-eq-cons [] = ([], [], refl)
segments-eq-cons (c ∷ s) = elim (Bool-cases (c == b'/')) [
  | inl slash ↦ ([], segments s, rw slash)
  | inr plain ↦ let (seg, segs, e) = segments-eq-cons s in (c ∷ seg, segs, rw (plain, e, extend))
]

is_prefix-extend :
    (c d : ℕ) (x y : Text) (xs ys : List Text)
    → is_prefix (extend c (x ∷ xs)) (extend d (y ∷ ys)) ≡ (c == d && is_prefix (x ∷ xs) (y ∷ ys))
unfolding same
is_prefix-extend c d x y xs ys = ground arith

-- A path lies at or beneath another exactly when it is that path or begins with it and a slash.
pub is_prefix-segments :
    (p f : Text)
    → is_prefix (segments p) (segments f) ≡ (same f p || starts_with f (p ++ codes "/"))
unfolding segments starts_with same
is_prefix-segments [] [] = refl
is_prefix-segments [] (d ∷ f) = let (y, ys, e) = segments-eq-cons f in rw e (ground arith)
is_prefix-segments (c ∷ p) [] = let (x, xs, e) = segments-eq-cons p in rw e (ground arith)
is_prefix-segments (c ∷ p) (d ∷ f) =
    let (x, xs, e) = segments-eq-cons p in
    let (y, ys, e') = segments-eq-cons f in
    ground (arith, e, e', is_prefix-extend c d x y xs ys, is_prefix-segments p f)

pub segments_single : (d : Text) → includes d b'/' ≡ false → segments d ≡ d ∷ []
unfolding segments includes
segments_single [] h = refl
segments_single (c ∷ d) h = ground (arith, segments_single d)

trim_slashes_single : (p : Text) → includes p b'/' ≡ false → trim_slashes p ≡ p
unfolding trim_slashes includes
trim_slashes_single [] h = refl
trim_slashes_single (c ∷ p) h = ground (arith, trim_slashes_single p)

pub basename_single : (p : Text) → includes p b'/' ≡ false → basename p ≡ p
unfolding basename
basename_single p h = rw (trim_slashes_single p h) (rw (segments_single p h))

pub starts_with-append : (s t : Text) → starts_with (s ++ t) s ≡ true
unfolding starts_with
starts_with-append [] t = ground arith
starts_with-append (c ∷ s) t = ground (arith, starts_with-append s t)

pub starts_with-append_both : (d s t : Text) → starts_with (d ++ s) (d ++ t) ≡ starts_with s t
unfolding starts_with
starts_with-append_both [] s t = refl
starts_with-append_both (c ∷ d) s t = ground (arith, starts_with-append_both d s t)

pub ends_with_refl : (s : Text) → ends_with s s ≡ true
unfolding ends_with same
ends_with_refl [] = refl
ends_with_refl (c ∷ s) = ground (arith, same_refl s)

pub ends_with-rest : (s : Text) → ends_with s (rest s) ≡ true
unfolding ends_with same
ends_with-rest [] = refl
ends_with-rest (c ∷ s) = ground (arith, ends_with_refl s)

length-ends_with : (s t : Text) → ends_with s t ≡ true → length t ≤ length s
unfolding ends_with same
length-ends_with [] t h = ground (arith, same_iff [] t)
length-ends_with (c ∷ s) t h = ground (arith, same_iff (c ∷ s) t, length-ends_with s t)

take_none : (n : ℕ) (s : Text) → take (n - n) s ++ s ≡ s
take_none n s = let e : n - n ≡ 0 = omega arith in rw e

-- What is left of a text when a suffix of it is cut off.
pub drop_end-append : (s t : Text) → ends_with s t ≡ true → drop_end (length t) s ++ t ≡ s
unfolding ends_with same
drop_end-append [] t h = ground (arith, same_iff [] t)
drop_end-append (c ∷ s) t h = elim (Bool-cases (same (c ∷ s) t)) [
  | inl whole ↦ rw (← (same_iff (c ∷ s) t).0 whole) (take_none (length (c ∷ s)) (c ∷ s))
  | inr part ↦
      let tail : ends_with s t ≡ true = ground arith in
      let step : suc (length s) - length t ≡ suc (length s - length t) =
        omega (arith, length-ends_with s t tail) in
      rw step (ap (λ (u : Text). c ∷ u) (drop_end-append s t tail))
]
