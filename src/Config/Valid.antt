-- ===== src/Config/Valid.antt =====
-- lib/config.js: what an accepted configuration is.
use hermitstash_sync.Prelude.{
  Bool, true, false, not, ◌&&◌, Option, none, some, List, [], ◌∷◌, ◌++◌, Text, codes, is_empty, All,
  ◌≡◌, ◌⊎◌, inl, inr, refl, arith, Bool-cases, if◌then◌else◌, ◌||◌,
}
use hermitstash_sync.Config.Validate.{
  Json, null_value, boolean, natural, other_number, text, array, object, MtlsField, no_mtls,
  other_mtls, mtls_paths, Settings, ServerUrl, ConfigHost, Problem, is_truthy, refuse_if,
  allow_plaintext_server, is_mistyped, is_absent, required, identity_types, check_boolean, concat,
  checks, mtls_checks, check_parsed, check_server, check_folder, check_mtls, check_mtls_path,
  is_partial, partial_mtls, bad_pin, tunnel_unpinned, is_pin_entry, check_pin_list, check_pins,
  is_unpinned, is_on, check_tunnel, validate,
}

-- The server is https, or this host, or the operator allowed plaintext.
abbrev pub IsPrivate : ConfigHost → Option Json → Type 0
IsPrivate h server =
    (t : Text) × (u : ServerUrl) × (server ≡ some (text t))
    × (h.parse_url t ≡ some u)
    × ((u.is_http ≡ false) ⊎ ((u.is_loopback ≡ true) ⊎ (allow_plaintext_server h ≡ true)))

abbrev pub IsFolder : ConfigHost → Option Json → Type 0
IsFolder h folder = (t : Text) × (folder ≡ some (text t)) × (h.exists t ≡ true)

abbrev pub IsFile : ConfigHost → Option Json → Type 0
IsFile h path = (t : Text) × (path ≡ some (text t)) × (h.exists t ≡ true)

abbrev pub IsIdentity : ConfigHost → MtlsField → Type 0
IsIdentity h no_mtls = Unit
IsIdentity h other_mtls = ⊥
IsIdentity h (mtls_paths p) =
    ((is_absent p.cert && is_absent p.key && is_absent p.ca) ≡ true)
    ⊎ (IsFile h p.cert × IsFile h p.key × IsFile h p.ca)

abbrev pub IsPinned : Option Json → Type 0
IsPinned pins =
    (p : Option Text) × (ps : List (Option Text)) × (pins ≡ some (array (p ∷ ps)))
    × All (λ q. is_pin_entry q ≡ true) (p ∷ ps)

split : (xs ys : List Problem) → xs ++ ys ≡ [] → (xs ≡ []) × (ys ≡ [])
split [] ys h = (refl, h)
split (x ∷ xs) ys h = absurd (ground (arith, h))

concat_none : (pss : List (List Problem)) → concat pss ≡ [] → All (λ ps. ps ≡ []) pss
concat_none [] ok = tt
concat_none (ps ∷ pss) ok =
    let (one, rest) = split ps (concat pss) ok in (one, concat_none pss rest)

not_refused : (b : Bool) (p : Problem) → refuse_if b p ≡ [] → b ≡ false
not_refused false p h = refl
not_refused true p h = absurd (ground (arith, h))

parsed_lem :
    (h : ConfigHost) (o : Option ServerUrl)
    → check_parsed h o ≡ []
    → (u : ServerUrl) × (o ≡ some u)
      × ((u.is_http ≡ false) ⊎ ((u.is_loopback ≡ true) ⊎ (allow_plaintext_server h ≡ true)))
parsed_lem h none ok = absurd (ground (arith, ok))
parsed_lem h (some u) ok = (u, refl, ground (arith, ok))

nonempty :
    (t : Text) (ps : List Problem)
    → not (is_empty t) ≡ true
    → (if is_empty t then [] else ps) ≡ []
    → ps ≡ []
nonempty [] ps h ok = absurd (ground (arith, h))
nonempty (c ∷ cs) ps h ok = ok

server_lem :
    (h : ConfigHost) (o : Option Json)
    → is_truthy o ≡ true
    → is_mistyped o ≡ false
    → check_server h o ≡ []
    → IsPrivate h o
server_lem h none truthy typed ok = absurd (ground (arith, truthy))
server_lem h (some null_value) truthy typed ok = absurd (ground (arith, truthy))
server_lem h (some (boolean b)) truthy typed ok = absurd (ground (arith, typed))
server_lem h (some (natural n)) truthy typed ok = absurd (ground (arith, typed))
server_lem h (some other_number) truthy typed ok = absurd (ground (arith, typed))
server_lem h (some (text t)) truthy typed ok =
    let (u, parsed, private) =
      parsed_lem h (h.parse_url t) (nonempty t (check_parsed h (h.parse_url t)) truthy ok) in
    (t, u, refl, parsed, private)
server_lem h (some (array xs)) truthy typed ok = absurd (ground (arith, typed))
server_lem h (some object) truthy typed ok = absurd (ground (arith, typed))

folder_lem :
    (h : ConfigHost) (o : Option Json)
    → is_truthy o ≡ true
    → is_mistyped o ≡ false
    → check_folder h o ≡ []
    → IsFolder h o
folder_lem h none truthy typed ok = absurd (ground (arith, truthy))
folder_lem h (some null_value) truthy typed ok = absurd (ground (arith, truthy))
folder_lem h (some (boolean b)) truthy typed ok = absurd (ground (arith, typed))
folder_lem h (some (natural n)) truthy typed ok = absurd (ground (arith, typed))
folder_lem h (some other_number) truthy typed ok = absurd (ground (arith, typed))
folder_lem h (some (text t)) truthy typed ok = (t, refl, ground (arith, truthy, ok))
folder_lem h (some (array xs)) truthy typed ok = absurd (ground (arith, typed))
folder_lem h (some object) truthy typed ok = absurd (ground (arith, typed))

file_lem :
    (h : ConfigHost) (name : Text) (o : Option Json)
    → check_mtls_path h name o ≡ []
    → (is_absent o ≡ true) ⊎ IsFile h o
file_lem h name none ok = inl refl
file_lem h name (some null_value) ok = inl refl
file_lem h name (some (text t)) ok = inr (t, refl, ground (arith, ok))
file_lem h name (some (boolean b)) ok = absurd (ground (arith, ok))
file_lem h name (some (natural n)) ok = absurd (ground (arith, ok))
file_lem h name (some other_number) ok = absurd (ground (arith, ok))
file_lem h name (some (array xs)) ok = absurd (ground (arith, ok))
file_lem h name (some object) ok = absurd (ground (arith, ok))

all_or_none :
    {A B C : Type 0} (a b c : Bool)
    → (not (a && b && c) && (a || b || c)) ≡ false
    → (a ≡ true) ⊎ A
    → (b ≡ true) ⊎ B
    → (c ≡ true) ⊎ C
    → ((a && b && c) ≡ true) ⊎ (A × B × C)
all_or_none a b c h (inr x) (inr y) (inr z) = inr (x, y, z)
all_or_none a b c h (inl e) y z = inl (ground (arith, h, e))
all_or_none a b c h (inr x) (inl e) z = inl (ground (arith, h, e))
all_or_none a b c h (inr x) (inr y) (inl e) = inl (ground (arith, h, e))

mtls_lem : (h : ConfigHost) (m : MtlsField) → check_mtls h m ≡ [] → IsIdentity h m
unfolding check_mtls
mtls_lem h no_mtls ok = tt
mtls_lem h other_mtls ok = absurd (ground (arith, ok))
mtls_lem h (mtls_paths p) ok =
    let (whole, (cert_ok, (key_ok, (ca_ok, _)))) = concat_none (mtls_checks h p) ok in
    all_or_none (is_absent p.cert) (is_absent p.key) (is_absent p.ca)
      (not_refused (is_partial p) partial_mtls whole) (file_lem h (codes "cert") p.cert cert_ok)
      (file_lem h (codes "key") p.key key_ok) (file_lem h (codes "ca") p.ca ca_ok)

pins_lem : (xs : List (Option Text)) → check_pin_list xs ≡ [] → All (λ q. is_pin_entry q ≡ true) xs
pins_lem [] ok = tt
pins_lem (x ∷ xs) ok =
    let (one, rest) = split (refuse_if (not (is_pin_entry x)) bad_pin) (check_pin_list xs) ok in
    (ground (arith, one), pins_lem xs rest)

pinned_lem : (o : Option Json) → is_unpinned o ≡ false → check_pins o ≡ [] → IsPinned o
pinned_lem none h ok = absurd (ground (arith, h))
pinned_lem (some null_value) h ok = absurd (ground (arith, h))
pinned_lem (some (boolean b)) h ok = absurd (ground (arith, h))
pinned_lem (some (natural n)) h ok = absurd (ground (arith, h))
pinned_lem (some other_number) h ok = absurd (ground (arith, h))
pinned_lem (some (text t)) h ok = absurd (ground (arith, h))
pinned_lem (some (array [])) h ok = absurd (ground (arith, h))
pinned_lem (some (array (x ∷ xs))) h ok = (x, xs, refl, pins_lem (x ∷ xs) ok)
pinned_lem (some object) h ok = absurd (ground (arith, h))

-- What the daemon may rely on.
abbrev pub IsAccepted : ConfigHost → Settings → Type 0
IsAccepted h c =
    IsPrivate h c.server
    × IsFolder h c.sync_folder
    × ((is_truthy c.bundle_id ≡ true) ⊎ (is_truthy c.share_id ≡ true))
    × IsIdentity h c.mtls
    × ((is_on c.tunnel_mode ≡ false) ⊎ IsPinned c.pinned_server_spki)

tunnel_lem :
    (c : Settings)
    → check_tunnel c ≡ []
    → check_pins c.pinned_server_spki ≡ []
    → (is_on c.tunnel_mode ≡ false) ⊎ IsPinned c.pinned_server_spki
unfolding check_tunnel
tunnel_lem c ok pins_ok =
    let (typed, guard) =
      split (check_boolean (codes "tunnelMode") c.tunnel_mode)
        (refuse_if (is_on c.tunnel_mode && is_unpinned c.pinned_server_spki) tunnel_unpinned) ok in
    let safe =
      not_refused (is_on c.tunnel_mode && is_unpinned c.pinned_server_spki) tunnel_unpinned guard in
    elim (Bool-cases (is_on c.tunnel_mode)) [
      | inl on ↦ inr (pinned_lem c.pinned_server_spki (ground (arith, on, safe)) pins_ok)
      | inr off ↦ inl off
    ]

required_lem :
    (c : Settings)
    → required c ≡ []
    → (is_truthy c.server ≡ true)
      × (is_truthy c.sync_folder ≡ true)
      × ((is_truthy c.bundle_id ≡ true) ⊎ (is_truthy c.share_id ≡ true))
required_lem c ok = ground (arith, ok)

types_lem :
    (c : Settings)
    → identity_types c ≡ []
    → (is_mistyped c.server ≡ false) × (is_mistyped c.sync_folder ≡ false)
types_lem c ok = ground (arith, ok)

-- A configuration in which validate finds no problem has a server whose URL parses and that is reached
-- over https, unless it is this host or the operator allowed plaintext; a sync folder that exists; a
-- bundle or a share; a client identity of which the three files exist, or none at all; and, if tunnel
-- mode is on, at least one pin, with every pin well formed.
pub validate-IsAccepted : (h : ConfigHost) (c : Settings) → validate h c ≡ [] → IsAccepted h c
unfolding validate
validate-IsAccepted h c ok =
    let found = concat_none (checks h c) ok in
    let (req, (types, (server_ok, (folder_ok, (mtls_ok, tuning))))) = found in
    let (n1, (n2, (n3, (n4, (n5, (n6, (n7, (n8, (pins_ok, (n9, (tunnel_ok, nil))))))))))) =
      tuning in
    let (has_server, has_folder, has_bundle) = required_lem c req in
    let (server_typed, folder_typed) = types_lem c types in
    (
      server_lem h c.server has_server server_typed server_ok,
      folder_lem h c.sync_folder has_folder folder_typed folder_ok,
      has_bundle,
      mtls_lem h c.mtls mtls_ok,
      tunnel_lem c tunnel_ok pins_ok,
    )
