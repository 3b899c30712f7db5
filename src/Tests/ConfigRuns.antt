-- ===== src/Tests/ConfigRuns.antt =====
-- A configuration of a tunnel with one pin.
use hermitstash_sync.Prelude.{◌≡◌, refl, true, false, none, some, [], ◌∷◌, ◌++◌, codes, Text}
use hermitstash_sync.Config.Validate.{
  Json, boolean, natural, text, array, no_mtls, Settings, ConfigHost, Problem, tunnel_unpinned,
  validate,
}
use hermitstash_sync.Config.Patterns.{
  PatternFile, contents, read_pattern_file, ignore_sources, Excludes, get_ignore_patterns-Excludes,
}
use hermitstash_sync.PathFilter.{match_any}
use hermitstash_sync.Tests.Host.{linux}
use hermitstash_sync.Config.Valid.{IsAccepted, validate-IsAccepted}

-- Every URL is https; every path exists.
abbrev host : ConfigHost
host = record {
  parse_url = λ t. some (record { is_http = false; is_loopback = false });
  raw_allow_plaintext = [];
  exists = λ t. true;
}

abbrev pin : Text
pin = codes "sha256/0123456789012345678901234567890123456789012="

abbrev settings : Settings
settings = record {
  server = some (text (codes "https://h"));
  sync_folder = some (text (codes "/data"));
  bundle_id = some (text (codes "b"));
  share_id = none;
  mtls = no_mtls;
  upload_concurrency = some (natural 4);
  upload_bytes_per_sec = none;
  download_bytes_per_sec = none;
  max_file_size = none;
  auto_update_channel = some (text (codes "beta"));
  auto_update = some (boolean false);
  include = none;
  ignore = some (array (some (codes "*.tmp") ∷ []));
  pinned_server_spki = some (array (some pin ∷ []));
  log_level = none;
  tunnel_mode = some (boolean true);
}

no_problem : validate host settings ≡ []
unfolding validate hermitstash_sync.Config.Validate.check_mtls
    hermitstash_sync.Config.Validate.check_tunnel hermitstash_sync.Config.Validate.is_pin
    hermitstash_sync.Prelude.same hermitstash_sync.PathFilter.starts_with
no_problem = refl

-- The same without its pin.
unpinned :
    validate host (record settings { pinned_server_spki = some (array []) }) ≡ tunnel_unpinned ∷ []
unfolding validate hermitstash_sync.Config.Validate.check_mtls
    hermitstash_sync.Config.Validate.check_tunnel hermitstash_sync.Prelude.same
unpinned = refl

validate-IsAccepted_example : IsAccepted host settings
validate-IsAccepted_example = validate-IsAccepted host settings no_problem

-- A pattern file with a comment and a directory.
abbrev pattern_file : PatternFile
pattern_file = contents (codes "# mine" ++ 10 ∷ codes " secret/** " ++ 13 ∷ 10 ∷ [])

file_lines : read_pattern_file pattern_file ≡ some (codes "secret/**" ∷ [])
unfolding read_pattern_file hermitstash_sync.PathFilter.starts_with
file_lines = refl

get_ignore_patterns-Excludes_example :
    Excludes linux.runtime settings pattern_file (codes "secret/a") false
get_ignore_patterns-Excludes_example =
    get_ignore_patterns-Excludes linux.runtime settings pattern_file (codes "secret/a") false

-- It is excluded.
secret_excluded :
    match_any linux.runtime
      (codes "secret/a")
      (ignore_sources settings (codes "secret/**" ∷ []))
      false
    ≡ true
unfolding match_any hermitstash_sync.PathFilter.match_pattern
    hermitstash_sync.PathFilter.match_subtree hermitstash_sync.PathFilter.match_basename
    hermitstash_sync.PathFilter.starts_with hermitstash_sync.PathFilter.ends_with
    hermitstash_sync.PathFilter.replace_all hermitstash_sync.PathFilter.basename
    hermitstash_sync.Prelude.same hermitstash_sync.Prelude.includes
secret_excluded = refl
