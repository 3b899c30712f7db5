-- ===== src/PathFilter.antt =====
-- lib/path-filter.js: which paths are in the scope of selective sync.
mod Slices
pub mod Segments
pub mod Meaning
pub mod Scope
pub mod Unsupported
unfoldable pub use Slices.{starts_with, ends_with, segments, basename, replace_all, trim_slashes}
pub use Slices.{drop_end, rest}
use hermitstash_sync.Prelude.{
  ℕ, Bool, true, false, not, ◌&&◌, ◌||◌, List, [], ◌∷◌, ◌++◌, if◌then◌else◌, Text, codes, same,
  includes, is_empty, any,
}

-- What the filter takes from the runtime: `String.prototype.normalize('NFC')`, `toLowerCase`, and
-- the code unit of `nodePath.sep`.
pub record Runtime : Type 0 where
  pub nfc : Text → Text
  pub lower : Text → Text
  pub sep : ℕ

-- A character that the matcher refuses to read as a wildcard: '[', ']', '?', '!'.
abbrev pub has_literal_wildcard : Text → Bool
has_literal_wildcard p = includes p b'[' || includes p b']' || includes p b'?' || includes p b'!'

abbrev pub slash_stars : Text
slash_stars = codes "/**"

abbrev pub star_tilde : Text
star_tilde = codes "*~"

abbrev pub star_dot : Text
star_dot = codes "*."

-- The branch for a pattern with no '/'.
unfoldable pub match_basename : Text → Text → Bool
match_basename base pattern =
    same base pattern
    || (starts_with pattern star_dot && ends_with base (rest pattern))
    || (same pattern star_tilde && ends_with base (codes "~"))

abbrev pub has_segment : List Text → Text → Bool
has_segment segs dir = any (λ seg. same seg dir) segs

-- The branch for a pattern `dir/**`.
unfoldable pub match_subtree : Text → Text → Bool
match_subtree filepath dir =
    if includes dir b'*'
    then false
    else if starts_with filepath (dir ++ codes "/") || same filepath dir
    then true
    else if not (includes dir b'/')
    then has_segment (segments filepath) dir
    else false

-- `_matchPattern`; every pattern of the model is a string.
unfoldable pub match_pattern : Text → Text → Bool
match_pattern filepath pattern =
    if has_literal_wildcard pattern
    then false
    else if same filepath pattern
    then true
    else if not (includes pattern b'/')
    then match_basename (basename filepath) pattern
    else if ends_with pattern slash_stars
    then match_subtree filepath (drop_end 3 pattern)
    else if includes pattern b'*'
    then false
    else starts_with filepath (pattern ++ codes "/")

pub data Grammar : Type 0 where
  unsupported tilde ext basename_only recursive_dir path_qualified : Grammar

-- `classifyPattern` after its two tests for an empty pattern and its folding of separators.
unfoldable pub classify_folded : Text → Grammar
classify_folded p =
    if is_empty p || starts_with p (codes "/") || ends_with p (codes "/") || has_literal_wildcard p
    then unsupported
    else if not (includes p b'/')
    then (if same p star_tilde
        then tilde
        else if starts_with p star_dot && not (includes (rest p) b'*')
        then ext
        else if includes p b'*'
        then unsupported
        else basename_only)
    else if ends_with p slash_stars
    then (if includes (drop_end 3 p) b'*' then unsupported else recursive_dir)
    else if includes p b'*'
    then unsupported
    else path_qualified

module _ (rt : Runtime) where
  -- The folding of a Windows separator and the NFC form, shared by the classifier and the matcher.
  abbrev pub fold_pattern : Text → Text
  fold_pattern pattern = rt.nfc (replace_all b'\\' b'/' pattern)

  -- `classifyPattern`
  unfoldable pub classify_pattern : Text → Grammar
  classify_pattern pattern =
      if is_empty pattern then unsupported else classify_folded (fold_pattern pattern)

  abbrev pub case_fold : Bool → Text → Text
  case_fold fold s = if fold then rt.lower s else s

  abbrev pub fold_path : Bool → Text → Text
  fold_path fold filepath = case_fold fold (rt.nfc (replace_all rt.sep b'/' filepath))

  -- `matchAny`
  unfoldable pub match_any : Text → List Text → Bool → Bool
  match_any filepath patterns fold =
      any
        (λ pattern. match_pattern (fold_path fold filepath) (case_fold fold (fold_pattern pattern)))
        patterns

  -- `isIgnored`
  unfoldable pub is_ignored : Text → List Text → Bool → Bool
  is_ignored filepath ignore fold = match_any filepath ignore fold

  abbrev is_none : List Text → Bool
  is_none [] = true
  is_none (p ∷ ps) = false

  -- `isIncluded`: an empty list includes everything.
  unfoldable pub is_included : Text → List Text → Bool → Bool
  is_included filepath include fold =
      if is_none include then true else match_any filepath include fold

  -- `shouldSync`
  unfoldable pub should_sync : Text → List Text → List Text → Bool → Bool
  unfolding is_included is_ignored
  should_sync filepath include ignore fold =
      if not (is_included filepath include fold)
      then false
      else if is_ignored filepath ignore fold
      then false
      else true
