-- ===== src/Power/Window.antt =====
-- The receiver shows the window of the measurement, whatever packets are lost inside it.
use riot_playground.Common.{
  ℕ, zero, suc, ◌+◌, ◌*◌, ◌≤◌, ◌<◌, ◌≡◌, ◌≢◌, refl, ap, ◌∙◌, List, [], ◌∷◌, ◌++◌, Bool, true, false,
  ltb, ◌==◌, if◌then◌else◌, some, codes, write_at, length, arith, Bool-cases, inl, inr,
  length-write_at, drop, leb, holds_below, holds_below_sound, ◌&&◌, and_parts,
}
use riot_playground.Common.Decimal.{
  print_u, decimal_fuel, digits_value-decimal_fuel, digits_value_stop, decimal_fuel_first,
  digits_value_digit, atoi_digit,
}
use riot_playground.Common.Int.{pos}
use riot_playground.Common.Chars.{digits_value, until_nul, atoi}
use mathlib.Core.List.{append_assoc}
use native.Mathlib.Numerals.{add-one}
use riot_playground.Power.{print_02, text, Sender, send_turn, send_loop, Receiver, receive_turn}

-- A number of at least two digits, with a blank behind it, is read back, whatever follows.
atoi-print_02 : (n : ℕ) (rest : List ℕ) → atoi (print_02 n ++ b' ' ∷ rest) ≡ pos n
unfolding print_02 print_u
atoi-print_02 n rest = elim (Bool-cases (ltb n 10)) [
  | inl small ↦
      let d : n < 10 = ground arith in
      let first = digits_value_digit 0 0 ((b'0' + n) ∷ b' ' ∷ rest) (omega arith) in
      let second = digits_value_digit 0 n (b' ' ∷ rest) d in
      let value : digits_value 0 (b'0' ∷ (b'0' + n) ∷ b' ' ∷ rest) ≡ n =
        first ∙ second ∙ digits_value_stop (0 * 10 + n) b' ' rest refl ∙ omega arith in
      rw small (atoi_digit 0 n ((b'0' + n) ∷ b' ' ∷ rest) (omega arith) value)
  | inr more ↦
      let (d, t, e, small) = decimal_fuel_first n n in
      let value =
        digits_value-decimal_fuel (suc n) n (b' ' ∷ rest) (omega arith)
        ∙ digits_value_stop n b' ' rest refl in
      rw (more, add-one, e) (atoi_digit d n (t ++ b' ' ∷ rest) small (rw e at value))
]

no_nul : List ℕ → Bool
no_nul [] = true
no_nul (c ∷ s) = if c == 0 then false else no_nul s

until_nul-append : (s rest : List ℕ) → no_nul s ≡ true → until_nul (s ++ rest) ≡ s ++ until_nul rest
unfolding until_nul no_nul
until_nul-append [] rest h = refl
until_nul-append (c ∷ s) rest h = elim (Bool-cases (c == 0)) [
  | inl nul ↦ absurd (ground (arith, nul))
  | inr char ↦ rw char (ap (λ t. c ∷ t) (until_nul-append s rest (rw char at h)))
]

write_at-front :
    (buffer s : List ℕ)
    → length s ≤ length buffer
    → write_at buffer 0 s ≡ s ++ drop (length s) buffer
write_at-front [] [] h = refl
write_at-front [] (c ∷ s) h = absurd (omega arith)
write_at-front (b ∷ buffer) [] h = refl
write_at-front (b ∷ buffer) (c ∷ s) h = ap (λ t. c ∷ t) (write_at-front buffer s (omega arith))

-- Every text fits `data` with its NUL, and has none inside.
texts_table : holds_below 101 (λ i. leb (length (text i)) 20 && no_nul (text i)) ≡ true
unfolding holds_below text print_u decimal_fuel no_nul
texts_table = refl

text_fits : (i : ℕ) → i ≤ 100 → (length (text i) < 21) × (no_nul (text i) ≡ true)
text_fits i h =
    let checked =
      holds_below_sound 101 (λ k. leb (length (text k)) 20 && no_nul (text k)) i (omega arith)
        texts_table in
    let (short, clean) = and_parts (leb (length (text i)) 20) (no_nul (text i)) checked in
    (ground (arith, short), clean)

-- The receiver reads the number that the sender printed, whatever its buffer held.
read-text :
    (i : ℕ) (buffer : List ℕ)
    → i ≤ 100
    → length buffer ≡ 21
    → atoi (until_nul (write_at buffer 0 (text i))) ≡ pos i
unfolding text
read-text i buffer h sized =
    let (short, clean) = text_fits i h in
    let left = until_nul (drop (length (text i)) buffer) in
    ap (λ s. atoi (until_nul s)) (write_at-front buffer (text i) (omega arith))
    ∙ ap atoi (until_nul-append (text i) (drop (length (text i)) buffer) clean)
    ∙ ap atoi (append_assoc (print_02 i) (codes " Msg buffer w/20b") left)
    ∙ atoi-print_02 i (codes "Msg buffer w/20b" ++ left)

-- What a packet does to the LEDs of the receiver.
abbrev after_packet : ℕ → Bool → Bool
after_packet i leds = if i == 100 then true else if i == 0 then false else leds

receive_turn-text :
    (i : ℕ) (r : Receiver)
    → i ≤ 100
    → length r.buffer ≡ 21
    → let r' = receive_turn (some (text i)) r in
      (r'.leds ≡ after_packet i r.leds) × (length r'.buffer ≡ 21)
unfolding receive_turn
receive_turn-text i r h sized =
    (rw (read-text i r.buffer h sized) refl, length-write_at r.buffer 0 (text i) ∙ sized)

-- The texts of the first `n` packets, the newest first.
newest : ℕ → List (List ℕ)
newest zero = []
newest (suc n) = text n ∷ newest n

length-newest : (n : ℕ) → length (newest n) ≡ n
unfolding newest
length-newest zero = refl
length-newest (suc n) = ap suc (length-newest n)

-- The loop of the sender from packet `i` on.
send_loop_lem :
    (n i k : ℕ) (s : Sender)
    → k ≡ n + i
    → s.sent ≡ newest i
    → s.sender_leds ≡ leb 100 i
    → ((send_loop n i s).sent ≡ newest k) × ((send_loop n i s).sender_leds ≡ leb 100 k)
unfolding send_loop send_turn newest
send_loop_lem zero i k s e sent leds =
    let same : i ≡ k = omega arith in (sent ∙ ap newest same, leds ∙ ap (leb 100) same)
send_loop_lem (suc n) i k s e sent leds =
    send_loop_lem n (i + 1) k (send_turn i s) (omega arith) (one_more i s sent) (lit i s leds)
  where
    one_more : (j : ℕ) (t : Sender) → t.sent ≡ newest j → (send_turn j t).sent ≡ newest (j + 1)
    one_more j t h = rw add-one (ground (arith, h))

    lit :
        (j : ℕ) (t : Sender)
        → t.sender_leds ≡ leb 100 j
        → (send_turn j t).sender_leds ≡ leb 100 (j + 1)
    lit j t h = ground arith

-- What a network delivers of the packets sent, the newest first: `keep` says which packets arrive.
pub deliver : (ℕ → Bool) → List (List ℕ) → List (List ℕ)
deliver keep [] = []
deliver keep (p ∷ ps) = let rest = deliver keep ps in if keep (length ps) then p ∷ rest else rest

-- The receiver after datagrams that are given with the newest first.
pub receive_all : List (List ℕ) → Receiver → Receiver
receive_all [] r = r
receive_all (p ∷ ps) r = receive_turn (some p) (receive_all ps r)

receive_all-newest :
    (keep : ℕ → Bool) (n : ℕ) (r : Receiver)
    → n ≤ 101
    → length r.buffer ≡ 21
    → keep 0 ≡ true
    → keep 100 ≡ true
    → let r' = receive_all (deliver keep (newest n)) r in
      (length r'.buffer ≡ 21) × (0 < n → r'.leds ≡ (n == 101))
unfolding receive_all deliver newest
receive_all-newest keep zero r few sized first last = (sized, λ h. absurd (omega arith))
receive_all-newest keep (suc n) r few sized first last =
    let r0 : Receiver = receive_all (deliver keep (newest n)) r in
    let (sized0, leds0) = receive_all-newest keep n r (omega arith) sized first last in
    let (leds1, sized1) = receive_turn-text n r0 (omega arith) sized0 in
    rw (length-newest n) (elim (Bool-cases (keep n)) [
      | inl arrives ↦ rw arrives (sized1, λ h. leds1 ∙ ground (arith, leds0))
      | inr lost ↦
          let not_first : n ≢ 0 = λ e. cc (ap keep e) in
          let not_last : n ≢ 100 = λ e. cc (ap keep e) in
          rw lost (sized0, λ h. ground (arith, leds0, not_first, not_last))
    ])

-- When the sender has sent its first `n` packets (1 to 101), and the network has delivered in order
-- any of them, packets 0 and 100 among them, then the receiver's LEDs are off until packet 100 has
-- arrived and on after it, and the sender's are off until it has sent 100 packets. What the buffer
-- of the receiver held before, and which other packets were lost, has no part in it.
pub measurement_window :
    (keep : ℕ → Bool) (n : ℕ) (s : Sender) (r : Receiver)
    → 0 < n
    → n ≤ 101
    → s.sent ≡ []
    → s.sender_leds ≡ false
    → length r.buffer ≡ 21
    → keep 0 ≡ true
    → keep 100 ≡ true
    → let s' = send_loop n 0 s in
      ((receive_all (deliver keep s'.sent) r).leds ≡ (n == 101)) × (s'.sender_leds ≡ leb 100 n)
unfolding newest
measurement_window keep n s r some_sent few none_sent dark sized first last =
    let (sent, lit) = send_loop_lem n 0 n s (omega arith) none_sent dark in
    (rw sent ((receive_all-newest keep n r few sized first last).1 some_sent), lit)
