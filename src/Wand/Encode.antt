-- ===== src/Wand/Encode.antt =====
-- `_time_encode` against the comment above its prototype, and back to hour and quarter.
use riot_playground.Common.{
  ℕ, zero, suc, ◌+◌, ◌/◌, ◌%◌, ◌<◌, ◌≡◌, refl, Bool, true, ◌&&◌, ◌||◌, not, arith, ◌==◌, ==_iff,
  if◌then◌else◌, holds_below, holds_below_sound, and_parts,
}
use riot_playground.Wand.Display.{time_encode}

-- Bit `k` of a number.
abbrev pub bit : ℕ → ℕ → Bool
bit n zero = n % 2 == 1
bit n (suc k) = bit (n / 2) k

-- Hour 0 is shown as 12.
abbrev pub shown_hour : ℕ → ℕ
shown_hour hour = if hour == 0 then 12 else hour

-- Minute LED `k` stands for quarter `k` of the hour; a half quarter also lights the LED after it.
abbrev pub quarter_led : ℕ → ℕ → Bool
quarter_led quarter k =
    (k == quarter / 2) || (not (quarter % 2 == 0) && (k == (quarter / 2 + 1) % 4))

-- The half quarter that the minute LEDs show.
abbrev pub decode_quarter : ℕ → ℕ
decode_quarter n =
    if n == 9
    then 7
    else if n == 1
    then 0
    else if n == 3
    then 1
    else if n == 2
    then 2
    else if n == 6
    then 3
    else if n == 4
    then 4
    else if n == 12
    then 5
    else 6

iff_eq : Bool → Bool → Bool
iff_eq a b = (a && b) || (not a && not b)

eq_of_iff_eq : (a b : Bool) → iff_eq a b ≡ true → a ≡ b
unfolding iff_eq
eq_of_iff_eq a b h = ground arith

abbrev bits_test : ℕ → ℕ → ℕ → Bool
bits_test h q k =
    iff_eq (bit (time_encode h q) k) (quarter_led q k)
    && iff_eq (bit (time_encode h q) (k + 4)) (bit (shown_hour h) k)

bits_table : holds_below 16 (λ h. holds_below 8 (λ q. holds_below 4 (bits_test h q))) ≡ true
unfolding holds_below iff_eq time_encode
bits_table = refl

-- For an hour below 16 and a half quarter below 8, bit `k` of the code, `k` below 4, is minute
-- LED `k` of the comment above the prototype, and bit `k + 4` is bit `k` of the hour, with 12
-- for hour 0.
pub bit-time_encode :
    (h q k : ℕ)
    → h < 16
    → q < 8
    → k < 4
    → (bit (time_encode h q) k ≡ quarter_led q k)
      × (bit (time_encode h q) (k + 4) ≡ bit (shown_hour h) k)
bit-time_encode h q k hh hq hk =
    let hours =
      holds_below_sound 16 (λ h'. holds_below 8 (λ q'. holds_below 4 (bits_test h' q'))) h hh
        bits_table in
    let quarters = holds_below_sound 8 (λ q'. holds_below 4 (bits_test h q')) q hq hours in
    let t = holds_below_sound 4 (bits_test h q) k hk quarters in
    let (low, high) = and_parts _ _ t in (eq_of_iff_eq _ _ low, eq_of_iff_eq _ _ high)

abbrev decode_test : ℕ → ℕ → Bool
decode_test h q =
    (time_encode h q / 16 == shown_hour h) && (decode_quarter (time_encode h q % 16) == q)

decode_table : holds_below 16 (λ h. holds_below 8 (decode_test h)) ≡ true
unfolding holds_below time_encode
decode_table = refl

-- The code of an hour below 16 and a half quarter below 8 determines both, but for hour 0, which
-- it takes for 12.
pub decode-time_encode :
    (h q : ℕ)
    → h < 16
    → q < 8
    → (time_encode h q / 16 ≡ shown_hour h) × (decode_quarter (time_encode h q % 16) ≡ q)
decode-time_encode h q hh hq =
    let hours = holds_below_sound 16 (λ h'. holds_below 8 (decode_test h')) h hh decode_table in
    let t = holds_below_sound 8 (decode_test h) q hq hours in
    let (hour, quarter) = and_parts _ _ t in ((==_iff _ _).0 hour, (==_iff _ _).0 quarter)
