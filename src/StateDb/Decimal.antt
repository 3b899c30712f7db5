-- ===== src/StateDb/Decimal.antt =====
-- The numbers of the table `sync_state`: `String(n)` and `parseInt(text, 10)`. The numbers are safe
-- integers (below 2^53), for which `String` prints plain decimals.
use Prim.Native.Nat.{◌/◌, ◌%◌}
use hermitstash_sync.Prelude.{
  ℕ, zero, suc, ◌+◌, ◌*◌, ◌-◌, ◌<◌, ◌≡◌, refl, ◌∙◌, Bool, true, ◌&&◌, ◌||◌, Option, none, some, [],
  ◌∷◌, arith, if◌then◌else◌, ltb, leb, ◌==◌, Text, Bool-cases, inl, inr, ap, sym,
}

abbrev pub is_digit : ℕ → Bool
is_digit c = leb b'0' c && leb c b'9'

-- The digits of `n` in front of `tail`; a number below 2^53 has at most 16 digits, and `suc n`
-- rounds are always enough.
print_onto : ℕ → ℕ → Text → Text
print_onto zero n tail = tail
print_onto (suc fuel) n tail =
    let digit = b'0' + n % 10 in
    let rest = print_onto fuel (n / 10) (digit ∷ tail) in if ltb n 10 then digit ∷ tail else rest

-- `String(n)`
unfoldable pub print : ℕ → Text
unfolding print_onto
print n = print_onto (suc n) n []

-- The value of the leading digits, with what was read before.
unfoldable pub read_digits : ℕ → Text → ℕ
read_digits value [] = value
read_digits value (c ∷ s) = if is_digit c then read_digits (value * 10 + (c - b'0')) s else value

abbrev is_space : ℕ → Bool
is_space c = c == 0x20 || c == 0x09 || c == 0x0A || c == 0x0D

skip_space : Text → Text
skip_space [] = []
skip_space (c ∷ s) = if is_space c then skip_space s else c ∷ s

-- `none` is NaN: no digit to read.
abbrev read_number : Text → Option ℕ
read_number [] = none
read_number (c ∷ s) = if is_digit c then some (read_digits 0 (c ∷ s)) else none

-- What is left of `parseInt(text, 10)` by a test for a number that is at least 0: `none` for NaN
-- and for a negative number. The text is trimmed of blanks and may carry a sign.
unsigned : Text → Option ℕ
unsigned [] = none
unsigned (c ∷ s) =
    if c == b'-'
    then (if read_digits 0 s == 0 then read_number s else none)
    else if c == b'+'
    then read_number s
    else read_number (c ∷ s)

unfoldable pub parse_natural : Text → Option ℕ
unfolding unsigned skip_space read_digits
parse_natural s = unsigned (skip_space s)

parse_signed : parse_natural (b'-' ∷ b'7' ∷ []) ≡ none
unfolding parse_natural
parse_signed = refl

parse_prefix : parse_natural (b' ' ∷ b'4' ∷ b'2' ∷ b'x' ∷ b'7' ∷ []) ≡ some 42
unfolding parse_natural
parse_prefix = refl

print_small : print 907 ≡ b'9' ∷ b'0' ∷ b'7' ∷ []
unfolding print
print_small = refl

digit_value : (n : ℕ) → b'0' + n % 10 - b'0' ≡ n % 10
digit_value n = omega arith

digit_is_digit : (n : ℕ) → is_digit (b'0' + n % 10) ≡ true
digit_is_digit n = ground arith

-- Reading a printed number leaves its value for what follows.
read_digits-print_onto :
    (fuel n : ℕ) (tail : Text)
    → n < fuel
    → read_digits 0 (print_onto fuel n tail) ≡ read_digits n tail
unfolding read_digits print_onto
read_digits-print_onto zero n tail h = elim h [ ]
read_digits-print_onto (suc fuel) n tail h = elim (Bool-cases (ltb n 10)) [
  | inl short ↦ rw short (rw digit_is_digit (ap (λ (k : ℕ). read_digits k tail) (ground arith)))
  | inr long ↦ rw long (
      read_digits-print_onto fuel (n / 10) ((b'0' + n % 10) ∷ tail) (ground arith)
      ∙ rw digit_is_digit (ap (λ (k : ℕ). read_digits k tail) (omega arith)))
]

-- What is printed begins with a digit.
print_onto-eq-cons :
    (fuel n : ℕ) (tail : Text)
    → n < fuel
    → (c : ℕ) × (s : Text) × (print_onto fuel n tail ≡ c ∷ s) × (is_digit c ≡ true)
unfolding print_onto
print_onto-eq-cons zero n tail h = elim h [ ]
print_onto-eq-cons (suc fuel) n tail h = elim (Bool-cases (ltb n 10)) [
  | inl short ↦ (b'0' + n % 10, tail, rw short, digit_is_digit n)
  | inr long ↦ rw long (print_onto-eq-cons fuel (n / 10) ((b'0' + n % 10) ∷ tail) (ground arith))
]

parse_natural_digits :
    (c : ℕ) (s : Text) → is_digit c ≡ true → parse_natural (c ∷ s) ≡ some (read_digits 0 (c ∷ s))
unfolding parse_natural
parse_natural_digits c s h = ground arith

pub parse_natural-print : (n : ℕ) → parse_natural (print n) ≡ some n
unfolding print
parse_natural-print n =
    let (c, s, e, digit) = print_onto-eq-cons (suc n) n [] (omega arith) in
    ap parse_natural e
    ∙ parse_natural_digits c s digit
    ∙ ap some (
        ap (read_digits 0) (sym e)
        ∙ read_digits-print_onto (suc n) n [] (omega arith)
        ∙ unfold read_digits in refl)
