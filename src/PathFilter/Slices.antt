-- ===== src/PathFilter/Slices.antt =====
-- The string methods that lib/path-filter.js calls, on code units.
use hermitstash_sync.Prelude.{
  ℕ, zero, suc, ◌-◌, Bool, true, false, ◌&&◌, ◌||◌, List, [], ◌∷◌, if◌then◌else◌, ◌==◌, Text, same,
  is_empty, length,
}

-- `s.startsWith(t)`
unfoldable pub starts_with : Text → Text → Bool
starts_with s [] = true
starts_with [] (d ∷ t) = false
starts_with (c ∷ s) (d ∷ t) = c == d && starts_with s t

-- `s.endsWith(t)`
unfoldable pub ends_with : Text → Text → Bool
ends_with [] t = same [] t
ends_with (c ∷ s) t = same (c ∷ s) t || ends_with s t

abbrev pub take : ℕ → Text → Text
take zero s = []
take (suc n) [] = []
take (suc n) (c ∷ s) = c ∷ take n s

-- `s.slice(0, -n)`
abbrev pub drop_end : ℕ → Text → Text
drop_end n s = take (length s - n) s

-- `s.slice(1)`
abbrev pub rest : Text → Text
rest [] = []
rest (c ∷ s) = s

abbrev pub extend : ℕ → List Text → List Text
extend c [] = (c ∷ []) ∷ []
extend c (seg ∷ segs) = (c ∷ seg) ∷ segs

-- `s.split('/')`
unfoldable pub segments : Text → List Text
segments [] = [] ∷ []
segments (c ∷ s) = let segs = segments s in if c == b'/' then [] ∷ segs else extend c segs

-- `s.split(a).join(b)` for single code units.
unfoldable pub replace_all : ℕ → ℕ → Text → Text
replace_all a b [] = []
replace_all a b (c ∷ s) = (if c == a then b else c) ∷ replace_all a b s

abbrev pub last_of : Text → List Text → Text
last_of seg [] = seg
last_of seg (seg' ∷ segs) = last_of seg' segs

abbrev pub last_segment : List Text → Text
last_segment [] = []
last_segment (seg ∷ segs) = last_of seg segs

-- Trailing slashes are no part of a base name.
unfoldable pub trim_slashes : Text → Text
trim_slashes [] = []
trim_slashes (c ∷ s) =
    let kept = trim_slashes s in if c == b'/' && is_empty kept then [] else c ∷ kept

-- `nodePath.basename(s)` on a path whose separator is '/'.
unfoldable pub basename : Text → Text
unfolding trim_slashes segments
basename s = last_segment (segments (trim_slashes s))
