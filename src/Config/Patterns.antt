-- ===== src/Config/Patterns.antt =====
-- lib/config.js: the ignore and include lists, from the defaults, the configuration and the pattern
-- files of the sync folder.
use hermitstash_sync.Prelude.{
  ℕ, Bool, true, false, not, ◌&&◌, ◌||◌, Option, none, some, List, [], ◌∷◌, ◌++◌, if◌then◌else◌,
  Text, codes, same, same_iff, is_empty, any, keep_if, ◌==◌, ◌≡◌, inl, inr, refl, arith, Bool-cases,
  ◌⊎◌, ap, ◌∙◌, map,
}
use hermitstash_sync.PathFilter.{
  Runtime, starts_with, match_pattern, match_any, is_ignored, should_sync, fold_path, fold_pattern,
  case_fold,
}
use hermitstash_sync.Config.Validate.{Json, text, array, Settings, is_between}

-- DEFAULT_IGNORES
abbrev pub default_ignores : List Text
default_ignores =
    codes ".DS_Store"
    ∷ codes "Thumbs.db"
    ∷ codes "desktop.ini"
    ∷ codes "*.tmp"
    ∷ codes "*.swp"
    ∷ codes "*.swo"
    ∷ codes "*~"
    ∷ codes ".hermitstash-sync/**"
    ∷ codes ".git/**"
    ∷ codes ".svn/**"
    ∷ codes "node_modules/**"
    ∷ codes "__pycache__/**"
    ∷ codes ".Spotlight-V100/**"
    ∷ codes ".Trashes/**"
    ∷ codes "ehthumbs.db"
    ∷ []

-- What b.atomicFile.fdSafeReadSync makes of a pattern file.
pub data PatternFile : Type 0 where
  no_file refused : PatternFile
  contents : Text → PatternFile

-- The white space and line ends of String.prototype.trim.
abbrev pub is_white : ℕ → Bool
is_white c =
    is_between 9 13 c
    || c == 32
    || c == 160
    || c == 5760
    || is_between 8192 8202 c
    || c == 8232
    || c == 8233
    || c == 8239
    || c == 8287
    || c == 12288
    || c == 65279

abbrev trim_start : Text → Text
trim_start [] = []
trim_start (c ∷ cs) = let rest = trim_start cs in if is_white c then rest else c ∷ cs

abbrev trim_end : Text → Text
trim_end [] = []
trim_end (c ∷ cs) = let rest = trim_end cs in if is_empty rest && is_white c then [] else c ∷ rest

abbrev pub trim : Text → Text
trim t = trim_end (trim_start t)

abbrev onto_line : ℕ → List Text → List Text
onto_line c [] = (c ∷ []) ∷ []
onto_line c (l ∷ ls) = (c ∷ l) ∷ ls

-- split('\n')
abbrev pub split_lines : Text → List Text
split_lines [] = [] ∷ []
split_lines (c ∷ cs) = let rest = split_lines cs in if c == 10 then [] ∷ rest else onto_line c rest

abbrev pub is_pattern_line : Text → Bool
is_pattern_line l = not (is_empty l) && not (starts_with l (codes "#"))

-- `_readPatternFile`: `none` is the error it throws.
unfoldable pub read_pattern_file : PatternFile → Option (List Text)
read_pattern_file no_file = some []
read_pattern_file refused = none
read_pattern_file (contents raw) = some (keep_if is_pattern_line (map trim (split_lines raw)))

-- The strings of a configured list.
abbrev pub texts_of : List (Option Text) → List Text
texts_of [] = []
texts_of (none ∷ xs) = texts_of xs
texts_of (some t ∷ xs) = t ∷ texts_of xs

abbrev pub configured : Option Json → List Text
configured (some (array xs)) = texts_of xs
configured _ = []

-- [...new Set(patterns)], on the strings.
abbrev pub dedupe : List Text → List Text → List Text
dedupe seen [] = []
dedupe seen (p ∷ ps) = if any (λ s. same s p) seen then dedupe seen ps else p ∷ dedupe (p ∷ seen) ps

abbrev pub has_folder : Option Json → Bool
has_folder (some (text t)) = not (is_empty t)
has_folder _ = false

-- The patterns of the file, if there is a folder to look for it in.
abbrev pub from_folder : Settings → PatternFile → Option (List Text)
from_folder c file = if has_folder c.sync_folder then read_pattern_file file else some []

abbrev pub with_file : List Text → Option (List Text) → Option (List Text)
with_file ps none = none
with_file ps (some qs) = some (dedupe [] (ps ++ qs))

-- `getIgnorePatterns` and `getIncludePatterns`
unfoldable pub get_ignore_patterns : Settings → PatternFile → Option (List Text)
get_ignore_patterns c file = with_file (default_ignores ++ configured c.ignore) (from_folder c file)

unfoldable pub get_include_patterns : Settings → PatternFile → Option (List Text)
get_include_patterns c file = with_file (configured c.include) (from_folder c file)

or_right : (a b : Bool) → b ≡ true → (a || b) ≡ true
or_right a b h = ground (arith, h)

told : (x a b : Bool) → (x ≡ true → a ≡ true) → (a || b) ≡ (a || (x || b))
told true a b h = rw (h refl) refl
told false a b h = refl

swap : (x a b d : Bool) → ((x || a) || d) ≡ ((x || a) || b) → (a || (x || d)) ≡ (a || (x || b))
swap x a b d h = ground (arith, h)

any-seen :
    (f : Text → Bool) (p : Text) (seen : List Text)
    → any (λ s. same s p) seen ≡ true
    → f p ≡ true
    → any f seen ≡ true
any-seen f p [] h hp = absurd (ground (arith, h))
any-seen f p (s ∷ ss) h hp = elim (Bool-cases (same s p)) [
  | inl eq ↦ rw (ap f ((same_iff s p).0 eq) ∙ hp) refl
  | inr ne ↦ or_right (f s) (any f ss) (any-seen f p ss (ground (arith, h, ne)) hp)
]

any-dedupe :
    (f : Text → Bool) (seen ps : List Text)
    → (any f seen || any f (dedupe seen ps)) ≡ (any f seen || any f ps)
any-dedupe f seen [] = refl
any-dedupe f seen (p ∷ ps) = elim (Bool-cases (any (λ s. same s p) seen)) [
  | inl old ↦
      rw old (any-dedupe f seen ps ∙ told (f p) (any f seen) (any f ps) (any-seen f p seen old))
  | inr new ↦ rw new (
      swap (f p) (any f seen) (any f ps) (any f (dedupe (p ∷ seen) ps))
        (any-dedupe f (p ∷ seen) ps))
]

match_any-dedupe :
    (rt : Runtime) (path : Text) (fold : Bool) (ps : List Text)
    → match_any rt path (dedupe [] ps) fold ≡ match_any rt path ps fold
unfolding match_any
match_any-dedupe rt path fold ps =
    any-dedupe (λ p. match_pattern (fold_path rt fold path) (case_fold rt fold (fold_pattern rt p)))
      [] ps

never_syncs :
    (rt : Runtime) (path : Text) (fold : Bool) (ps : List Text)
    → match_any rt path ps fold ≡ true
    → (include : List Text) → should_sync rt path include (dedupe [] ps) fold ≡ false
unfolding should_sync is_ignored
never_syncs rt path fold ps h include = ground (arith, match_any-dedupe rt path fold ps ∙ h)

-- What the ignore list is made of, in order.
abbrev pub ignore_sources : Settings → List Text → List Text
ignore_sources c qs = (default_ignores ++ configured c.ignore) ++ qs

-- The file holds these patterns, or there is none, or no folder to look for it in.
abbrev pub HasLines : Bool → PatternFile → List Text → Type 0
HasLines folder file qs =
    ((folder ≡ false) × (qs ≡ []))
    ⊎ (((file ≡ no_file) × (qs ≡ []))
        ⊎ ((raw : Text) × (file ≡ contents raw)
            × (qs ≡ keep_if is_pattern_line (map trim (split_lines raw)))))

read_lem :
    (folder : Bool) (file : PatternFile)
    → let read = if folder then read_pattern_file file else some [] in
      ((folder ≡ true) × (file ≡ refused) × (read ≡ none))
      ⊎ ((qs : List Text) × (read ≡ some qs) × HasLines folder file qs)
unfolding read_pattern_file
read_lem false file = inr ([], refl, inl (refl, refl))
read_lem true no_file = inr ([], refl, inr (inl (refl, refl)))
read_lem true refused = inl (refl, refl, refl)
read_lem true (contents raw) =
    inr (keep_if is_pattern_line (map trim (split_lines raw)), refl, inr (inr (raw, refl, refl)))

abbrev pub Excludes : Runtime → Settings → PatternFile → Text → Bool → Type 0
Excludes rt c file path fold =
    ((has_folder c.sync_folder ≡ true) × (file ≡ refused) × (get_ignore_patterns c file ≡ none))
    ⊎ ((qs : List Text) × (ps : List Text) × HasLines (has_folder c.sync_folder) file qs
        × (get_ignore_patterns c file ≡ some ps)
        × (match_any rt path (ignore_sources c qs) fold ≡ true
            → (include : List Text) → should_sync rt path include ps fold ≡ false))

-- When the pattern file of the folder can be read, or there is none, a path that matches a default, a
-- configured or a file pattern is not synced with the list that results, whatever is included; when the
-- file cannot be read, there is no list: the ignore rules never shrink to the others.
pub get_ignore_patterns-Excludes :
    (rt : Runtime) (c : Settings) (file : PatternFile) (path : Text) (fold : Bool)
    → Excludes rt c file path fold
unfolding get_ignore_patterns
get_ignore_patterns-Excludes rt c file path fold = elim (read_lem (has_folder c.sync_folder) file) [
  | inl (folder, torn, eq) ↦
      inl (folder, torn, ap (with_file (default_ignores ++ configured c.ignore)) eq)
  | inr (qs, eq, holds) ↦ inr (
    qs,
    dedupe [] (ignore_sources c qs),
    holds,
    ap (with_file (default_ignores ++ configured c.ignore)) eq,
    never_syncs rt path fold (ignore_sources c qs),
  )
]
