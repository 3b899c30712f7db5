-- ===== src/Config/Validate.antt =====
-- lib/config.js: `validate`.
use hermitstash_sync.Prelude.{
  ℕ, zero, suc, Bool, true, false, not, ◌&&◌, ◌||◌, Option, none, some, List, [], ◌∷◌, ◌++◌,
  if◌then◌else◌, Text, codes, same, is_empty, leb, ◌==◌, is_some, any,
}
use hermitstash_sync.PathFilter.{starts_with}

-- A JSON value. Of a number it matters whether it is an integer that is not negative, of an element of
-- an array whether it is a string.
pub data Json : Type 0 where
  null_value : Json
  boolean : Bool → Json
  natural : ℕ → Json
  other_number : Json
  text : Text → Json
  array : List (Option Text) → Json
  object : Json

-- The field `mtls`, and the paths of an object.
pub record MtlsPaths : Type 0 where
  pub cert : Option Json
  pub key : Option Json
  pub ca : Option Json

pub data MtlsField : Type 0 where
  no_mtls other_mtls : MtlsField  -- null or absent; neither null nor a plain object
  mtls_paths : MtlsPaths → MtlsField

-- A field that is absent is `none`.
pub record Settings : Type 0 where
  pub server : Option Json
  pub sync_folder : Option Json
  pub bundle_id : Option Json
  pub share_id : Option Json
  pub mtls : MtlsField
  pub upload_concurrency : Option Json
  pub upload_bytes_per_sec : Option Json
  pub download_bytes_per_sec : Option Json
  pub max_file_size : Option Json
  pub auto_update_channel : Option Json
  pub auto_update : Option Json
  pub include : Option Json
  pub ignore : Option Json
  pub pinned_server_spki : Option Json
  pub log_level : Option Json
  pub tunnel_mode : Option Json

-- What b.safeUrl.parse gives for a URL, and whether its host is one of the loopback names.
pub record ServerUrl : Type 0 where
  pub is_http : Bool
  pub is_loopback : Bool

pub record ConfigHost : Type 0 where
  pub parse_url : Text → Option ServerUrl  -- `none`: it throws
  pub raw_allow_plaintext : Text  -- HERMITSTASH_ALLOW_PLAINTEXT
  pub exists : Text → Bool

pub data Problem : Type 0 where
  missing no_string no_path no_integer no_boolean no_text_array bad_choice : Text → Problem
  bad_url plaintext_server bad_mtls partial_mtls bad_pin tunnel_unpinned : Problem

abbrev pub is_truthy : Option Json → Bool
is_truthy none = false
is_truthy (some null_value) = false
is_truthy (some (boolean b)) = b
is_truthy (some (natural zero)) = false
is_truthy (some (natural (suc n))) = true
is_truthy (some other_number) = true
is_truthy (some (text t)) = not (is_empty t)
is_truthy (some (array xs)) = true
is_truthy (some object) = true

abbrev pub concat : List (List Problem) → List Problem
concat [] = []
concat (ps ∷ pss) = ps ++ concat pss

abbrev pub refuse_if : Bool → Problem → List Problem
refuse_if b p = if b then p ∷ [] else []

-- `_allowPlaintextServer`
unfoldable pub allow_plaintext_server : ConfigHost → Bool
allow_plaintext_server h =
    same h.raw_allow_plaintext (codes "1")
    || same h.raw_allow_plaintext (codes "true")
    || same h.raw_allow_plaintext (codes "yes")

-- Present, not null, and not a string.
abbrev pub is_mistyped : Option Json → Bool
is_mistyped none = false
is_mistyped (some null_value) = false
is_mistyped (some (text t)) = false
is_mistyped (some _) = true

abbrev pub is_absent : Option Json → Bool
is_absent none = true
is_absent (some null_value) = true
is_absent (some _) = false

abbrev pub required : Settings → List Problem
required c =
    refuse_if (not (is_truthy c.server)) (missing (codes "server"))
    ++ refuse_if (not (is_truthy c.sync_folder)) (missing (codes "syncFolder"))
    ++ refuse_if (not (is_truthy c.bundle_id) && not (is_truthy c.share_id))
        (missing (codes "bundleId"))

abbrev pub identity_types : Settings → List Problem
identity_types c =
    refuse_if (is_mistyped c.server) (no_string (codes "server"))
    ++ refuse_if (is_mistyped c.sync_folder) (no_string (codes "syncFolder"))
    ++ refuse_if (is_mistyped c.bundle_id) (no_string (codes "bundleId"))
    ++ refuse_if (is_mistyped c.share_id) (no_string (codes "shareId"))

abbrev pub check_parsed : ConfigHost → Option ServerUrl → List Problem
check_parsed h none = bad_url ∷ []
check_parsed h (some u) =
    refuse_if (u.is_http && not u.is_loopback && not (allow_plaintext_server h)) plaintext_server

abbrev pub check_server : ConfigHost → Option Json → List Problem
check_server h (some (text t)) = if is_empty t then [] else check_parsed h (h.parse_url t)
check_server h _ = []

abbrev pub check_folder : ConfigHost → Option Json → List Problem
check_folder h (some (text t)) =
    refuse_if (not (is_empty t) && not (h.exists t)) (no_path (codes "syncFolder"))
check_folder h _ = []

abbrev pub check_mtls_path : ConfigHost → Text → Option Json → List Problem
check_mtls_path h name (some (text t)) = refuse_if (not (h.exists t)) (no_path name)
check_mtls_path h name v = refuse_if (not (is_absent v)) (no_string name)

abbrev pub is_partial : MtlsPaths → Bool
is_partial p =
    not (is_absent p.cert && is_absent p.key && is_absent p.ca)
    && (is_absent p.cert || is_absent p.key || is_absent p.ca)

abbrev pub mtls_checks : ConfigHost → MtlsPaths → List (List Problem)
mtls_checks h p =
    refuse_if (is_partial p) partial_mtls
    ∷ check_mtls_path h (codes "cert") p.cert
    ∷ check_mtls_path h (codes "key") p.key
    ∷ check_mtls_path h (codes "ca") p.ca
    ∷ []

unfoldable pub check_mtls : ConfigHost → MtlsField → List Problem
check_mtls h no_mtls = []
check_mtls h other_mtls = bad_mtls ∷ []
check_mtls h (mtls_paths p) = concat (mtls_checks h p)

-- `_intGte0`
abbrev pub int_gte0 : Text → Option Json → List Problem
int_gte0 name none = []
int_gte0 name (some (natural n)) = []
int_gte0 name (some _) = no_integer name ∷ []

abbrev pub check_boolean : Text → Option Json → List Problem
check_boolean name none = []
check_boolean name (some (boolean b)) = []
check_boolean name (some _) = no_boolean name ∷ []

-- Absent, or one of these strings.
abbrev pub one_of : Text → List Text → Option Json → List Problem
one_of name choices none = []
one_of name choices (some (text t)) =
    refuse_if (not (any (λ c. same c t) choices)) (bad_choice name)
one_of name choices (some _) = bad_choice name ∷ []

abbrev pub check_texts : Text → List (Option Text) → List Problem
check_texts name [] = []
check_texts name (x ∷ xs) = refuse_if (not (is_some x)) (no_text_array name) ++ check_texts name xs

-- `_stringArray`
abbrev pub string_array : Text → Option Json → List Problem
string_array name none = []
string_array name (some (array xs)) = check_texts name xs
string_array name (some _) = no_text_array name ∷ []

abbrev pub is_between : ℕ → ℕ → ℕ → Bool
is_between lo hi c = leb lo c && leb c hi

-- [A-Za-z0-9+/]
abbrev is_base64 : ℕ → Bool
is_base64 c =
    is_between b'A' b'Z' c
    || is_between b'a' b'z' c
    || is_between b'0' b'9' c
    || c == b'+'
    || c == b'/'

-- {n} characters of base64 and a '='.
abbrev is_digest : ℕ → Text → Bool
is_digest n [] = false
is_digest zero (c ∷ cs) = c == b'=' && is_empty cs
is_digest (suc n) (c ∷ cs) = is_base64 c && is_digest n cs

abbrev skip : ℕ → Text → Text
skip zero t = t
skip (suc n) [] = []
skip (suc n) (c ∷ cs) = skip n cs

-- /^sha256\/[A-Za-z0-9+/]{43}=$/
unfoldable pub is_pin : Text → Bool
is_pin p = starts_with p (codes "sha256/") && is_digest 43 (skip 7 p)

abbrev pub is_pin_entry : Option Text → Bool
is_pin_entry none = false
is_pin_entry (some p) = is_pin p

abbrev pub check_pin_list : List (Option Text) → List Problem
check_pin_list [] = []
check_pin_list (x ∷ xs) = refuse_if (not (is_pin_entry x)) bad_pin ++ check_pin_list xs

abbrev pub check_pins : Option Json → List Problem
check_pins none = []
check_pins (some (array xs)) = check_pin_list xs
check_pins (some _) = bad_pin ∷ []

abbrev pub is_unpinned : Option Json → Bool
is_unpinned (some (array (x ∷ xs))) = false
is_unpinned _ = true

abbrev pub is_on : Option Json → Bool
is_on (some (boolean true)) = true
is_on _ = false

unfoldable pub check_tunnel : Settings → List Problem
check_tunnel c =
    check_boolean (codes "tunnelMode") c.tunnel_mode
    ++ refuse_if (is_on c.tunnel_mode && is_unpinned c.pinned_server_spki) tunnel_unpinned

abbrev pub log_levels : List Text
log_levels = codes "debug" ∷ codes "info" ∷ codes "warn" ∷ codes "error" ∷ []

-- The checks in order, each with the problems it found.
abbrev pub checks : ConfigHost → Settings → List (List Problem)
checks h c =
    required c
    ∷ identity_types c
    ∷ check_server h c.server
    ∷ check_folder h c.sync_folder
    ∷ check_mtls h c.mtls
    ∷ int_gte0 (codes "uploadConcurrency") c.upload_concurrency
    ∷ int_gte0 (codes "uploadBytesPerSec") c.upload_bytes_per_sec
    ∷ int_gte0 (codes "downloadBytesPerSec") c.download_bytes_per_sec
    ∷ int_gte0 (codes "maxFileSize") c.max_file_size
    ∷ one_of (codes "autoUpdateChannel") (codes "stable" ∷ codes "beta" ∷ []) c.auto_update_channel
    ∷ check_boolean (codes "autoUpdate") c.auto_update
    ∷ string_array (codes "include") c.include
    ∷ string_array (codes "ignore") c.ignore
    ∷ check_pins c.pinned_server_spki
    ∷ one_of (codes "logLevel") log_levels c.log_level
    ∷ check_tunnel c
    ∷ []

-- `validate`: the problems that were found. None of them means that the configuration is accepted.
unfoldable pub validate : ConfigHost → Settings → List Problem
validate h c = concat (checks h c)
