-- ===== src/Client/Hex/Reference.antt =====
-- `_parse_hex` against a printer of bytes: round trip, soundness and bounds.
use Prim.Native.Nat.{bit_or}
use riot_playground.Common.{
  ℕ, zero, suc, ◌+◌, ◌-◌, ◌*◌, ◌/◌, ◌%◌, ◌≤◌, ◌<◌, ◌≡◌, ◌≢◌, refl, ◌∙◌, ap, ◌⊎◌, inl, inr, List, [],
  ◌∷◌, ◌++◌, map, true, false, ◌&&◌, none, some, arith, leb, ltb, ◌==◌, ==_iff, if◌then◌else◌, u8,
  drop, length, All, holds_below, holds_below_sound, Option-cases,
}
use riot_playground.Common.Chars.{char_at}
use riot_playground.Client.Hex.{parse_singlehex, hex_ends, parse_hex}

pub hex_digit : ℕ → ℕ
hex_digit n = if ltb n 10 then b'0' + n else b'a' + (n - 10)

-- The digits of each byte, the high one first.
pub print_hex : List ℕ → List ℕ
print_hex [] = []
print_hex (b ∷ bs) = hex_digit (b / 16) ∷ hex_digit (b % 16) ∷ print_hex bs

abbrev pub IsByte : ℕ → Type 0
IsByte b = b < 256

abbrev pub lower : ℕ → ℕ
lower c = if leb b'A' c && leb c b'F' then c + 32 else c

parse_singlehex-hex_digit : (n : ℕ) → n < 16 → parse_singlehex (hex_digit n) ≡ some n
unfolding parse_singlehex hex_digit
parse_singlehex-hex_digit n h = ground arith

hex_digit_of : (c n : ℕ) → parse_singlehex c ≡ some n → (n < 16) × (hex_digit n ≡ lower c) × (c ≢ 0)
unfolding parse_singlehex hex_digit
hex_digit_of c n e = ground arith

join_table : holds_below 16 (λ h. holds_below 16 (λ l. bit_or (u8 (h * 16)) l == h * 16 + l)) ≡ true
unfolding holds_below
join_table = refl

join : (h l : ℕ) → h < 16 → l < 16 → u8 (bit_or (u8 (h * 16)) l) ≡ h * 16 + l
join h l p q =
    let rows =
      holds_below_sound 16 (λ h'. holds_below 16 (λ l'. bit_or (u8 (h' * 16)) l' == h' * 16 + l')) h
        p join_table in
    let e =
      (==_iff _ _).0
        (holds_below_sound 16 (λ l'. bit_or (u8 (h * 16)) l' == h * 16 + l') l q rows) in
    omega (arith, e)

parse_hex_pair :
    (c d hi lo len : ℕ) (s : List ℕ)
    → parse_singlehex c ≡ some hi
    → parse_singlehex d ≡ some lo
    → parse_hex (c ∷ d ∷ s) (suc len)
      ≡ ((parse_hex s len).0, u8 (bit_or (u8 (hi * 16)) lo) ∷ (parse_hex s len).1)
unfolding parse_hex
parse_hex_pair c d hi lo len s p q = ground arith

-- The digits of a list of bytes, and then `rest`, are read as these bytes, and accepted exactly if
-- `rest` is what may follow the digits.
pub parse_hex-print_hex :
    (bs rest : List ℕ)
    → All IsByte bs
    → parse_hex (print_hex bs ++ rest) (length bs) ≡ (hex_ends rest, bs)
unfolding print_hex
parse_hex-print_hex [] rest h = unfold parse_hex in refl
parse_hex-print_hex (b ∷ bs) rest (hb, hs) =
    let hi = b / 16 in
    let lo = b % 16 in
    let whole : hi * 16 + lo ≡ b = omega arith in
    parse_hex_pair (hex_digit hi) (hex_digit lo) hi lo (length bs) (print_hex bs ++ rest)
      (parse_singlehex-hex_digit hi (omega arith)) (parse_singlehex-hex_digit lo (omega arith))
    ∙ rw (parse_hex-print_hex bs rest hs, join hi lo (omega arith) (omega arith), whole)

pub length-print_hex : (bs : List ℕ) → length (print_hex bs) ≡ 2 * length bs
unfolding print_hex
length-print_hex [] = refl
length-print_hex (b ∷ bs) = omega (arith, length-print_hex bs)

-- `_parse_hex` stores at most `len` bytes, whatever the string.
pub length-parse_hex : (hex : List ℕ) (len : ℕ) → length (parse_hex hex len).1 ≤ len
unfolding parse_hex
length-parse_hex hex zero = omega arith
length-parse_hex hex (suc len) = ground (arith, length-parse_hex (drop 2 hex) len)

-- What an accepted string looks like, read as `bs`.
pub record Reads (hex bs : List ℕ) (len : ℕ) : Type 0 where
  pub count : length bs ≡ len
  pub bytes : All IsByte bs
  pub rest : List ℕ
  pub digits : map lower hex ≡ print_hex bs ++ rest
  pub ending : (rest ≡ []) ⊎ (rest ≡ b'-' ∷ [])

hex_ends_lem :
    (hex : List ℕ) → All (λ c. c ≢ 0) hex → hex_ends hex ≡ true → (hex ≡ []) ⊎ (hex ≡ b'-' ∷ [])
hex_ends_lem [] s e = inl refl
hex_ends_lem (c ∷ []) s e = ground arith
hex_ends_lem (c ∷ d ∷ hex) s e = absurd (ground arith)

nul_refused : parse_singlehex 0 ≡ none
unfolding parse_singlehex
nul_refused = refl

first_refused :
    (hex : List ℕ) (len : ℕ)
    → parse_singlehex (char_at hex 0) ≡ none
    → (parse_hex hex (suc len)).0 ≡ false
unfolding parse_hex
first_refused hex len p = ground arith

second_refused :
    (hex : List ℕ) (len : ℕ)
    → parse_singlehex (char_at hex 1) ≡ none
    → (parse_hex hex (suc len)).0 ≡ false
unfolding parse_hex
second_refused hex len p = ground arith

Reads-pair :
    (c d hi lo len : ℕ) (hex bs : List ℕ)
    → parse_singlehex c ≡ some hi
    → parse_singlehex d ≡ some lo
    → Reads hex bs len
    → Reads (c ∷ d ∷ hex) (u8 (bit_or (u8 (hi * 16)) lo) ∷ bs) (suc len)
unfolding print_hex
Reads-pair c d hi lo len hex bs p q r =
    let (hi_small, hi_digit, _) = hex_digit_of c hi p in
    let (lo_small, lo_digit, _) = hex_digit_of d lo q in
    let high : (hi * 16 + lo) / 16 ≡ hi = omega arith in
    let low : (hi * 16 + lo) % 16 ≡ lo = omega arith in
    rw (join hi lo hi_small lo_small) (record {
      count = ap suc r.count;
      bytes = (omega arith, r.bytes);
      rest = r.rest;
      digits = rw (high, low, hi_digit, lo_digit, r.digits);
      ending = r.ending;
    })

-- A string that `_parse_hex` accepts consists of exactly `len` pairs of digits, those of the bytes
-- that it stores (but for upper and lower case), and at most a '-' after them.
pub parse_hex_sound :
    (hex : List ℕ) (len : ℕ)
    → All (λ c. c ≢ 0) hex
    → (parse_hex hex len).0 ≡ true
    → Reads hex (parse_hex hex len).1 len
parse_hex_sound hex zero s e =
    let ends = hex_ends_lem hex s (unfold parse_hex in e) in
    unfold parse_hex print_hex in
    record {
      count = refl;
      bytes = tt;
      rest = map lower hex;
      digits = refl;
      ending = elim ends [ inl p ↦ inl (rw p refl) | inr p ↦ inr (rw p refl) ];
    }
parse_hex_sound [] (suc len) s e = cc (first_refused [] len nul_refused)
parse_hex_sound (c ∷ []) (suc len) s e = cc (second_refused (c ∷ []) len nul_refused)
parse_hex_sound (c ∷ d ∷ hex) (suc len) s e = elim (Option-cases (parse_singlehex c)) [
  | inl p ↦ cc (first_refused (c ∷ d ∷ hex) len p)
  | inr (hi, p) ↦ elim (Option-cases (parse_singlehex d)) [
    | inl q ↦ cc (second_refused (c ∷ d ∷ hex) len q)
    | inr (lo, q) ↦
        let pair = parse_hex_pair c d hi lo len hex p q in
        rw pair (
          Reads-pair c d hi lo len hex (parse_hex hex len).1 p q
            (parse_hex_sound hex len s.1.1 (rw pair at e)))
  ]
]
