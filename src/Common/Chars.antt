-- ===== src/Common/Chars.antt =====
-- C strings: the bytes before the terminating NUL, none of which is 0.
use Prim.Native.Char.{code}
use Prim.Native.String.{String}
use Prim.Native.Nat.{ℕ, zero, suc, ◌+◌, ◌-◌, ◌*◌, ◌%◌}
use mathlib.Core.Path.{◌≡◌, refl}
use mathlib.Core.Bool.{Bool, true, false, ◌&&◌, ◌||◌}
use mathlib.Core.List.{List, [], ◌∷◌}
use native.Mathlib.Omega.{arith}
use riot_playground.Common.Tests.{leb, ◌==◌, if◌then◌else◌}
use riot_playground.Common.Lists.{get_or}
use riot_playground.Common.Int.{ℤ, pos, negsuc}

-- `s[i]`, where the string ends with a NUL.
abbrev pub char_at : List ℕ → ℕ → ℕ
char_at s i = get_or s i 0

-- The bytes before the first NUL.
unfoldable pub until_nul : List ℕ → List ℕ
until_nul [] = []
until_nul (c ∷ s) = let rest = until_nul s in if c == 0 then [] else c ∷ rest

-- The `n` bytes that `strncpy(dst, s, n)` writes: the string, and NULs after it.
unfoldable pub strncpy : List ℕ → ℕ → List ℕ
strncpy s zero = []
strncpy [] (suc n) = 0 ∷ strncpy [] n
strncpy (c ∷ s) (suc n) =
    let rest = strncpy s n in let padding = strncpy [] n in if c == 0 then 0 ∷ padding else c ∷ rest

-- The characters of a string literal.
abbrev pub codes : String → List ℕ
codes String.[] = []
codes (String.◌∷◌ c s) = code c ∷ codes s

-- `strcmp(s, t) == 0`
unfoldable pub str_eq : List ℕ → List ℕ → Bool
str_eq [] [] = true
str_eq [] (c ∷ t) = false
str_eq (b ∷ s) [] = false
str_eq (b ∷ s) (c ∷ t) = b == c && str_eq s t

pub str_eq_sound : (s t : List ℕ) → str_eq s t ≡ true → s ≡ t
unfolding str_eq
str_eq_sound [] [] h = refl
str_eq_sound [] (c ∷ t) h = cc
str_eq_sound (b ∷ s) [] h = cc
str_eq_sound (b ∷ s) (c ∷ t) h = ground (arith, str_eq_sound s t)

abbrev pub is_digit : ℕ → Bool
is_digit c = leb b'0' c && leb c b'9'

-- `isspace`: the blank, and 9 to 13.
abbrev pub is_space : ℕ → Bool
is_space c = c == b' ' || (leb 9 c && leb c 13)

unfoldable pub digits_value : ℕ → List ℕ → ℕ
digits_value n [] = n
digits_value n (c ∷ s) =
    let rest = digits_value (n * 10 + (c - b'0')) s in if is_digit c then rest else n

unfoldable pub skip_space : List ℕ → List ℕ
skip_space [] = []
skip_space (c ∷ s) = let rest = skip_space s in if is_space c then rest else c ∷ s

abbrev pub negate : ℕ → ℤ
negate zero = pos 0
negate (suc n) = negsuc n

atoi_signed : List ℕ → ℤ
atoi_signed [] = pos 0
atoi_signed (c ∷ s) =
    if c == b'-'
    then negate (digits_value 0 s)
    else if c == b'+'
    then pos (digits_value 0 s)
    else pos (digits_value 0 (c ∷ s))

-- `atoi`, with a result of any size.
unfoldable pub atoi : List ℕ → ℤ
unfolding atoi_signed skip_space digits_value
atoi s = atoi_signed (skip_space s)

-- The casts of an `int` to `uint8_t`, `uint16_t` and `uint32_t`.
abbrev cast : ℕ → ℤ → ℕ
cast m (pos n) = n % m
cast m (negsuc n) = (m - 1 - n % m) % m

abbrev pub int_to_u8 : ℤ → ℕ
int_to_u8 = cast 256

abbrev pub int_to_u16 : ℤ → ℕ
int_to_u16 = cast 65536

abbrev pub int_to_u32 : ℤ → ℕ
int_to_u32 = cast 4294967296
