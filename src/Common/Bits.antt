-- ===== src/Common/Bits.antt =====
-- The bits of a word: what `&` and `|` do with the mask of a field, for every word.
use Prim.Native.Nat.{
  ℕ, zero, suc, ◌+◌, ◌-◌, ◌*◌, ◌/◌, ◌%◌, ◌≤◌, min, max, bit_and, bit_or, digits, bit_and-bitwise,
  bit_or-bitwise, bitwise,
}
use mathlib.Core.Path.{◌≡◌, refl, ap, ◌∙◌}
use native.Mathlib.Omega.{arith}

-- One digit more than a number has is read as nothing, and so are any more.
module _ (end : ℕ → ℕ) (digit : ℕ → ℕ → ℕ) where
  grow : (n a b : ℕ) → a ≤ n → digits end digit (suc n) a b ≡ digits end digit n a b
  grow n zero b fits = elim n as (λ k. digits end digit (suc k) 0 b ≡ digits end digit k 0 b) [
    | zero ↦ refl
    | suc k ↦ refl
  ]
  grow zero (suc a) b fits = absurd (omega arith)
  grow (suc n) (suc a) b fits =
      ap (λ high. high * 2 + digit (suc a % 2) (b % 2)) (grow n (suc a / 2) (b / 2) (omega arith))

  climb : (k n a b : ℕ) → n ≡ k + a → digits end digit n a b ≡ bitwise end digit a b
  climb zero n a b level = let same : n ≡ a = omega arith in ap (λ m. digits end digit m a b) same
  climb (suc k) zero a b level = absurd (omega arith)
  climb (suc k) (suc n) a b level = grow n a b (omega arith) ∙ climb k n a b (omega arith)

  -- The lowest digit stands by itself.
  low_digit :
      (a b a' b' : ℕ)
      → suc a / 2 ≡ a'
      → b / 2 ≡ b'
      → bitwise end digit (suc a) b ≡ bitwise end digit a' b' * 2 + digit (suc a % 2) (b % 2)
  low_digit a b a' b' half_a half_b = rw (← half_a) (
      rw (← half_b) (
        ap (λ high. high * 2 + digit (suc a % 2) (b % 2))
          (climb (a - suc a / 2) a (suc a / 2) (b / 2) (omega arith))))

-- The laws for the lowest digit, with the halves named.
bit_and_halves :
    (a b a' b' : ℕ)
    → a / 2 ≡ a'
    → b / 2 ≡ b'
    → bit_and a b ≡ bit_and a' b' * 2 + min (a % 2) (b % 2)
bit_and_halves zero b a' b' half_a half_b =
    let none : bit_and a' b' ≡ 0 = rw (← half_a) (bit_and-bitwise 0 b') in
    omega (arith, bit_and-bitwise 0 b)
bit_and_halves (suc a) b a' b' half_a half_b = omega (
  arith,
  bit_and-bitwise (suc a) b,
  bit_and-bitwise a' b',
  low_digit (λ c. zero) min a b a' b' half_a half_b,
)

bit_or_halves :
    (a b a' b' : ℕ) → a / 2 ≡ a' → b / 2 ≡ b' → bit_or a b ≡ bit_or a' b' * 2 + max (a % 2) (b % 2)
bit_or_halves zero b a' b' half_a half_b =
    let rest : bit_or a' b' ≡ b' = rw (← half_a) (bit_or-bitwise 0 b') in
    omega (arith, bit_or-bitwise 0 b)
bit_or_halves (suc a) b a' b' half_a half_b = omega (
  arith,
  bit_or-bitwise (suc a) b,
  bit_or-bitwise a' b',
  low_digit (λ c. c) max a b a' b' half_a half_b,
)

-- `n` ones.
abbrev pub ones : ℕ → ℕ
ones zero = 0
ones (suc n) = 2 * ones n + 1

-- `w` ones above `p` zeros.
abbrev pub mask : ℕ → ℕ → ℕ
mask zero w = ones w
mask (suc p) w = 2 * mask p w

-- The lowest `w` bits, and the `w` bits from bit `p` on.
abbrev pub low : ℕ → ℕ → ℕ
low zero x = 0
low (suc w) x = x % 2 + 2 * low w (x / 2)

abbrev pub slice : ℕ → ℕ → ℕ → ℕ
slice zero w x = low w x
slice (suc p) w x = slice p w (x / 2)

abbrev pub shift : ℕ → ℕ → ℕ
shift zero x = x
shift (suc p) x = 2 * shift p x

bit_and-zero : (n a : ℕ) → a ≤ n → bit_and a 0 ≡ 0
bit_and-zero n zero h = refl
bit_and-zero zero (suc a) h = absurd (omega arith)
bit_and-zero (suc n) (suc a) h = omega (
  arith,
  bit_and_halves (suc a) 0 (suc a / 2) 0 refl refl,
  bit_and-zero n (suc a / 2) (omega arith),
)

bit_and-ones : (w x : ℕ) → bit_and x (ones w) ≡ low w x
bit_and-ones zero x = bit_and-zero x x (omega arith)
bit_and-ones (suc w) x = omega (
  arith,
  bit_and_halves x (2 * ones w + 1) (x / 2) (ones w) refl (omega arith),
  bit_and-ones w (x / 2),
)

-- What the mask of a field leaves of a word.
pub bit_and-mask : (p w x : ℕ) → bit_and x (mask p w) ≡ shift p (slice p w x)
bit_and-mask zero w x = bit_and-ones w x
bit_and-mask (suc p) w x = omega (
  arith,
  bit_and_halves x (2 * mask p w) (x / 2) (mask p w) refl (omega arith),
  bit_and-mask p w (x / 2),
)

-- Replacing the bits of `m` in `f` by those of `v`.
pub replace_bits :
    (n f v m : ℕ)
    → f ≤ ones n
    → m ≤ ones n
    → bit_or (bit_and f (ones n - m)) (bit_and v m) + bit_and f m ≡ f + bit_and v m
replace_bits zero zero v zero hf hm = omega (arith, bit_or-bitwise 0 (bit_and v 0))
replace_bits zero (suc f) v m hf hm = absurd (omega arith)
replace_bits zero zero v (suc m) hf hm = absurd (omega arith)
replace_bits (suc n) f v m hf hm =
    let k : ℕ = 2 * ones n + 1 - m in
    let k' : ℕ = ones n - m / 2 in
    let kept = bit_and_halves f k (f / 2) k' refl (omega arith) in
    let new = bit_and_halves v m (v / 2) (m / 2) refl refl in
    let both =
      bit_or_halves (bit_and f k) (bit_and v m) (bit_and (f / 2) k') (bit_and (v / 2) (m / 2))
        (omega arith) (omega arith) in
    omega (
      arith,
      bit_and_halves f m (f / 2) (m / 2) refl refl,
      replace_bits n (f / 2) (v / 2) (m / 2) (omega arith) (omega arith),
    )

-- Setting the bits of `m`.
pub set_bits : (n f m : ℕ) → f ≤ n → bit_or f m + bit_and f m ≡ f + m
set_bits n zero m h = omega (arith, bit_or-bitwise 0 m, bit_and-bitwise 0 m)
set_bits zero (suc f) m h = absurd (omega arith)
set_bits (suc n) (suc f) m h = omega (
  arith,
  bit_or_halves (suc f) m (suc f / 2) (m / 2) refl refl,
  bit_and_halves (suc f) m (suc f / 2) (m / 2) refl refl,
  set_bits n (suc f / 2) (m / 2) (omega arith),
)
