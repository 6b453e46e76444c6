-- ===== src/Luke/Payload.antt =====
-- The JSON payloads of lndw18_luke: what `sprintf` writes and `sscanf` reads by the formats
-- LUKE_POINTS_FMT and LUKE_DIFFICULTY_FMT, and the checks on a POST request.
pub mod Decimal
use text.Mathlib.Text
use riot_playground.Common.{
  ℕ, zero, suc, ◌+◌, ◌-◌, ◌*◌, ◌/◌, ◌%◌, ◌^◌, List, [], ◌∷◌, ◌++◌, Bool, true, false, ◌||◌, not,
  Option, none, some, ltb, ◌==◌, if◌then◌else◌, length, codes,
}
use riot_playground.Common.Decimal.{print_u}
use riot_playground.Common.Chars.{is_digit, digits_value, skip_space}

-- The text before the number in each format; after it stands '}'.
abbrev pub points_key : List ℕ
points_key = codes "{\"points\":"

abbrev pub difficulty_key : List ℕ
difficulty_key = codes "{\"difficulty\":"

-- What `sprintf` writes by a format: the key, the number and '}'.
unfoldable pub print_payload : List ℕ → ℕ → List ℕ
unfolding print_u
print_payload key n = key ++ (print_u n ++ b'}' ∷ [])

-- `%u` of `scanf`: blanks and a sign may stand before the digits, of which there is at least one.
scan_digits : List ℕ → Option ℕ
scan_digits [] = none
scan_digits (c ∷ s) = if is_digit c then some (digits_value 0 (c ∷ s) % 2 ^ 32) else none

scan_signed : List ℕ → Option ℕ
unfolding scan_digits
scan_signed [] = none
scan_signed (c ∷ s) =
    if c == b'-'
    then elim (scan_digits s) [ none ↦ none | some n ↦ some ((2 ^ 32 - n) % 2 ^ 32) ]
    else if c == b'+'
    then scan_digits s
    else scan_digits (c ∷ s)

unfoldable pub scan_u : List ℕ → Option ℕ
unfolding scan_signed
scan_u s = scan_signed (skip_space s)

-- `sscanf` by a format: the key, then the number; the '}' after it is not required for success.
unfoldable pub scan_payload : List ℕ → List ℕ → Option ℕ
unfolding scan_u
scan_payload [] s = scan_u s
scan_payload (k ∷ key) [] = none
scan_payload (k ∷ key) (c ∷ s) = let rest = scan_payload key s in if k == c then rest else none
