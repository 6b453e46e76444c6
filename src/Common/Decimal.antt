-- ===== src/Common/Decimal.antt =====
-- Decimal numbers: `%u` of `printf`, and what reads it back.
use Prim.Native.Nat.{ℕ, zero, suc, ◌+◌, ◌*◌, ◌/◌, ◌%◌, ◌<◌}
use mathlib.Core.Path.{◌≡◌, ap, ◌∙◌}
use mathlib.Core.Logic.{inl, inr}
use mathlib.Core.Bool.{false}
use mathlib.Core.List.{List, [], ◌∷◌, ◌++◌, append_assoc}
use native.Mathlib.Omega.{arith}
use riot_playground.Common.Tests.{ltb, if◌then◌else◌, Bool-cases}
use riot_playground.Common.Int.{pos}
use riot_playground.Common.Chars.{is_digit, digits_value, skip_space, atoi}

-- `%u` of `printf`. The fuel is one more than the number, which has fewer digits.
unfoldable pub decimal_fuel : ℕ → ℕ → List ℕ
decimal_fuel zero n = []
decimal_fuel (suc f) n =
    let front = decimal_fuel f (n / 10) in
    if ltb n 10 then (b'0' + n) ∷ [] else front ++ (b'0' + n % 10) ∷ []

unfoldable pub print_u : ℕ → List ℕ
unfolding decimal_fuel
print_u n = decimal_fuel (n + 1) n

pub digits_value_digit :
    (a d : ℕ) (s : List ℕ) → d < 10 → digits_value a ((b'0' + d) ∷ s) ≡ digits_value (a * 10 + d) s
unfolding digits_value
digits_value_digit a d s h = ground arith

pub digits_value-decimal_fuel :
    (f n : ℕ) (rest : List ℕ)
    → n < f
    → digits_value 0 (decimal_fuel f n ++ rest) ≡ digits_value n rest
unfolding decimal_fuel
digits_value-decimal_fuel zero n rest h = absurd (omega arith)
digits_value-decimal_fuel (suc f) n rest h = elim (Bool-cases (ltb n 10)) [
  | inl p ↦
      rw p
        (digits_value_digit 0 n rest (ground arith) ∙ ap (λ k. digits_value k rest) (omega arith))
  | inr p ↦
      let split : n / 10 * 10 + n % 10 ≡ n = omega arith in
      rw p (
        rw append_assoc (
          digits_value-decimal_fuel f (n / 10) ((b'0' + n % 10) ∷ rest) (ground arith)
          ∙ digits_value_digit (n / 10) (n % 10) rest (omega arith)
          ∙ ap (λ k. digits_value k rest) split))
]

pub digits_value_stop :
    (n : ℕ) (c : ℕ) (s : List ℕ) → is_digit c ≡ false → digits_value n (c ∷ s) ≡ n
unfolding digits_value
digits_value_stop n c s h = rw h

first_of_front :
    (f n : ℕ)
    → ltb n 10 ≡ false
    → (d : ℕ) × (s : List ℕ) × (decimal_fuel (suc f) n ≡ (b'0' + d) ∷ s) × (d < 10)
unfolding decimal_fuel
first_of_front zero n p = (n % 10, [], rw p, omega arith)
first_of_front (suc f) n p = elim (Bool-cases (ltb (n / 10) 10)) [
  | inl q ↦ (n / 10, (b'0' + n % 10) ∷ [], rw (p, q), ground arith)
  | inr q ↦
      let (d, s, e, h) = first_of_front f (n / 10) q in (d, s ++ (b'0' + n % 10) ∷ [], rw (p, e), h)
]

-- The first character of a number is a digit.
pub decimal_fuel_first :
    (f n : ℕ) → (d : ℕ) × (s : List ℕ) × (decimal_fuel (suc f) n ≡ (b'0' + d) ∷ s) × (d < 10)
unfolding decimal_fuel
decimal_fuel_first f n = elim (Bool-cases (ltb n 10)) [
  | inl p ↦ (n, [], rw p, ground arith)
  | inr p ↦ first_of_front f n p
]

-- `atoi` on a text that begins with a digit.
pub atoi_digit :
    (d n : ℕ) (s : List ℕ)
    → d < 10
    → digits_value 0 ((b'0' + d) ∷ s) ≡ n
    → atoi ((b'0' + d) ∷ s) ≡ pos n
unfolding atoi skip_space
atoi_digit d n s small value = ground arith
