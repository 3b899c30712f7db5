-- ===== src/Socket/Floor.antt =====
-- lib/http-client.js: the post-quantum floor on a connection that has shaken hands.
use hermitstash_sync.Prelude.{
  ℕ, Bool, true, false, not, ◌&&◌, ◌||◌, Option, none, some, [], ◌∷◌, if◌then◌else◌, Text, codes,
  same, is_empty, leb, ◌-◌,
}
use hermitstash_sync.PathFilter.{starts_with}

-- What `getEphemeralKeyInfo` reports; an absent name is the empty text.
pub record KeyInfo : Type 0 where
  pub kind : Text
  pub name : Text

abbrev upper_code : ℕ → ℕ
upper_code c = if leb b'a' c && leb c b'z' then c - 32 else c

abbrev upper : Text → Text
upper [] = []
upper (c ∷ s) = upper_code c ∷ upper s

abbrev found_in : Text → Text → Bool
found_in [] t = starts_with [] t
found_in (c ∷ s) t = starts_with (c ∷ s) t || found_in s t

-- `/MLKEM/i.test(group)`
unfoldable pub names_mlkem : Text → Bool
names_mlkem group = found_in (upper group) (codes "MLKEM")

-- `_allowClassicalTls` on the value of HERMITSTASH_ALLOW_CLASSICAL_TLS.
unfoldable pub allow_classical_tls : Text → Bool
allow_classical_tls raw = same raw (codes "1") || same raw (codes "true") || same raw (codes "yes")

abbrev is_at_floor : KeyInfo → Bool
is_at_floor info = same info.kind (codes "TLSGroup") || names_mlkem info.name

-- `assertNegotiatedGroupPqc` with `enforce: true`: whether it destroyed the socket. `none` is a socket
-- that reports nothing at all.
unfoldable pub assert_negotiated_group_pqc : Text → Option KeyInfo → Bool
assert_negotiated_group_pqc raw none = false
assert_negotiated_group_pqc raw (some info) =
    if is_at_floor info
    then false
    else if is_empty info.name
    then (if not (allow_classical_tls raw) then true else false)
    else if not (allow_classical_tls raw)
    then true
    else false
