-- ===== src/Tests/FilterRuns.antt =====
-- The theorems on patterns.
use hermitstash_sync.Prelude.{◌≡◌, ◌≢◌, refl, false, [], ◌∷◌, arith, Text, codes, same, includes}
use hermitstash_sync.PathFilter.{
  Runtime, ext, unsupported, match_pattern, classify_folded, should_sync, fold_path,
}
use hermitstash_sync.PathFilter.Scope.{in_scope, should_sync-eq-in_scope}
use hermitstash_sync.Tests.Host.{linux}

abbrev rt : Runtime
rt = linux.runtime

abbrev readme : Text
readme = codes "docs/readme.md"

is_ext : classify_folded (codes "*.md") ≡ ext
unfolding classify_folded same includes hermitstash_sync.PathFilter.starts_with
    hermitstash_sync.PathFilter.ends_with
is_ext = refl

supported : classify_folded (codes "*.md") ≢ unsupported
supported = ground (arith, is_ext)

should_sync-eq-in_scope_example :
    should_sync rt readme (codes "*.md" ∷ []) [] false
    ≡ in_scope rt false (fold_path rt false readme) (codes "*.md" ∷ []) []
unfolding hermitstash_sync.PathFilter.replace_all
should_sync-eq-in_scope_example =
    should_sync-eq-in_scope rt false readme (codes "*.md" ∷ []) [] (supported, tt) tt
