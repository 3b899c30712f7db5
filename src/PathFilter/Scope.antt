-- ===== src/PathFilter/Scope.antt =====
-- What `shouldSync` computes, with the patterns read by their meaning.
use hermitstash_sync.Prelude.{◌≡◌, ◌≢◌, refl, Bool, not, ◌&&◌, List, [], ◌∷◌, arith, All, Text, any}
use hermitstash_sync.PathFilter.Meaning.{means, match_pattern-eq-means}
use hermitstash_sync.PathFilter.{
  Runtime, unsupported, classify_folded, case_fold, fold_pattern, fold_path, match_any, should_sync,
}

module _ (rt : Runtime) (fold : Bool) where
  -- The pattern as the matcher compares it.
  abbrev compared : Text → Text
  compared pattern = case_fold rt fold (fold_pattern rt pattern)

  -- Every pattern has a supported form.
  abbrev pub IsSupported : List Text → Type 0
  IsSupported = All (λ p. classify_folded (compared p) ≢ unsupported)

  abbrev covers : Text → List Text → Bool
  covers f patterns = any (λ p. means (classify_folded (compared p)) f (compared p)) patterns

  -- In scope: covered by the include list if there is one, and not by the ignore list.
  abbrev pub in_scope : Text → List Text → List Text → Bool
  in_scope f [] ignore = not (covers f ignore)
  in_scope f (p ∷ include) ignore = covers f (p ∷ include) && not (covers f ignore)

  match_any-eq-covers :
      (filepath : Text) (patterns : List Text)
      → IsSupported patterns
      → match_any rt filepath patterns fold ≡ covers (fold_path rt fold filepath) patterns
  unfolding match_any
  match_any-eq-covers filepath [] h = refl
  match_any-eq-covers filepath (p ∷ patterns) (supported, h) = ground (
    arith,
    match_pattern-eq-means (fold_path rt fold filepath) (compared p) supported,
    match_any-eq-covers filepath patterns h,
  )

  -- With supported patterns the gate of selective sync is exactly the scope that they describe.
  pub should_sync-eq-in_scope :
      (filepath : Text) (include ignore : List Text)
      → IsSupported include
      → IsSupported ignore
      → should_sync rt filepath include ignore fold
        ≡ in_scope (fold_path rt fold filepath) include ignore
  unfolding should_sync
  should_sync-eq-in_scope filepath [] ignore hi hg =
      ground (arith, match_any-eq-covers filepath ignore hg)
  should_sync-eq-in_scope filepath (p ∷ include) ignore hi hg =
      ground (
        arith,
        match_any-eq-covers filepath (p ∷ include) hi,
        match_any-eq-covers filepath ignore hg,
      )
