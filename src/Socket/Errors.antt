-- ===== src/Socket/Errors.antt =====
-- lib/ws-client.js: which failures of a dial rule out another one.
use hermitstash_sync.Prelude.{
  ℕ, Bool, false, not, ◌&&◌, ◌||◌, Option, none, some, [], ◌∷◌, if◌then◌else◌, Text, codes, same,
  is_empty, ltb, leb, ◌==◌,
}
use hermitstash_sync.PathFilter.{starts_with}
use hermitstash_sync.StateDb.Decimal.{is_digit, read_digits}

-- An error of the framework's client; an absent code is the empty text.
pub record DialError : Type 0 where
  pub code : Text
  pub status_code : Option ℕ
  pub legacy_status : Option ℕ
  pub message : Text
  pub permanent : Bool

abbrev drop_text : Text → Text → Text
drop_text [] s = s
drop_text (d ∷ t) [] = []
drop_text (d ∷ t) (c ∷ s) = drop_text t s

abbrev status_was : Text
status_was = codes "status was "

-- The digits at the head of a text, if there are any.
abbrev leading_number : Text → Option ℕ
leading_number [] = none
leading_number (c ∷ s) = if is_digit c then some (read_digits 0 (c ∷ s)) else none

abbrev number_here : Text → Option ℕ
number_here s = if starts_with s status_was then leading_number (drop_text status_was s) else none

-- The group of `/status was (\d+)/.exec(message)`, 0 without a match.
unfoldable pub message_status : Text → ℕ
message_status [] = 0
message_status (c ∷ s) = elim (number_here (c ∷ s)) [ none ↦ message_status s | some n ↦ n ]

-- `_wsErrorStatus`
unfoldable pub ws_error_status : DialError → ℕ
ws_error_status err = elim err.status_code [
  | some n ↦ n
  | none ↦ elim err.legacy_status [ some n ↦ n | none ↦ message_status err.message ]
]

-- `_isSsrfError`
unfoldable pub is_ssrf_error : DialError → Bool
is_ssrf_error err = starts_with err.code (codes "ssrf-guard/")

abbrev pub bad_status : Text
bad_status = codes "ws-client/bad-status"

abbrev pub connection_lost : Text
connection_lost = codes "ws-client/connection-lost"

unfoldable pub is_retryable : ℕ → Bool
is_retryable status = (leb 500 status && ltb status 600) || status == 408 || status == 429

-- `_isTerminalWsError`, given whether the handshake of the dial is complete.
unfoldable pub is_terminal_ws_error : Bool → DialError → Bool
is_terminal_ws_error handshake_complete err =
    if is_empty err.code
    then false
    else if handshake_complete
    then false
    else if same err.code bad_status
    then not (is_retryable (ws_error_status err))
    else if starts_with err.code (codes "dns/")
    then false
    else err.permanent
