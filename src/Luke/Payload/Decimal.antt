-- ===== src/Luke/Payload/Decimal.antt =====
-- What is printed by a format is read back by it.
use riot_playground.Common.{
  ℕ, suc, ◌+◌, ◌^◌, ◌<◌, ◌≡◌, refl, ◌∙◌, List, [], ◌∷◌, ◌++◌, some, arith, ==_iff,
}
use riot_playground.Common.Chars.{digits_value, skip_space}
use native.Mathlib.Numerals.{add-one}
use riot_playground.Common.Decimal.{
  print_u, digits_value-decimal_fuel, digits_value_stop, decimal_fuel_first,
}
use riot_playground.Luke.Payload.{print_payload, scan_u, scan_payload}

scan_u_digit :
    (d n : ℕ) (s : List ℕ)
    → d < 10
    → n < 2 ^ 32
    → digits_value 0 ((b'0' + d) ∷ s) ≡ n
    → scan_u ((b'0' + d) ∷ s) ≡ some n
unfolding scan_u skip_space
scan_u_digit d n s hd hn e = ground arith

scan_u-print_u : (n : ℕ) (s : List ℕ) → n < 2 ^ 32 → scan_u (print_u n ++ b'}' ∷ s) ≡ some n
unfolding print_u
scan_u-print_u n s h =
    let (d, t, e, hd) = decimal_fuel_first n n in
    let value =
      digits_value-decimal_fuel (suc n) n (b'}' ∷ s) (omega arith)
      ∙ digits_value_stop n b'}' s refl in
    rw (add-one, e) (scan_u_digit d n (t ++ b'}' ∷ s) hd h (rw e at value))

scan_payload-append : (key s : List ℕ) → scan_payload key (key ++ s) ≡ scan_u s
unfolding scan_payload
scan_payload-append [] s = refl
scan_payload-append (k ∷ key) s = rw ((==_iff k k).1 refl) (scan_payload-append key s)

-- Reading a payload that was printed by the same format gives the number back, for a number below
-- 2 ^ 32.
pub scan-print_payload :
    (key : List ℕ) (n : ℕ) → n < 2 ^ 32 → scan_payload key (print_payload key n) ≡ some n
unfolding print_payload
scan-print_payload key n h =
    scan_payload-append key (print_u n ++ b'}' ∷ []) ∙ scan_u-print_u n [] h
