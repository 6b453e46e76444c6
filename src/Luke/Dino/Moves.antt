-- ===== src/Luke/Dino/Moves.antt =====
-- The dinosaur never moves for ever, and points that a controller posts set it moving.
use riot_playground.Common.{
  ℕ, zero, suc, ◌+◌, ◌/◌, ◌%◌, ◌≤◌, ◌<◌, ◌≡◌, refl, List, [], ◌∷◌, Bool, true, some, arith, length,
  length-append,
}
use native.Mathlib.Numerals.{add-one}
use riot_playground.Common.Decimal.{print_u, decimal_fuel}
use riot_playground.Luke.Payload.{points_key, print_payload}
use riot_playground.Luke.Payload.Decimal.{scan-print_payload}
use riot_playground.Luke.Coap.{post, Request, json, posted_number}
use riot_playground.Luke.Dino.{
  Dino, move_time, clear_dino, set_dino, toggle_dino, dino_move, Step, request, button, timeout,
  main_ends, Reach, boot, next,
}

-- The LED shows the pin, and a pin that is set has a timer that will clear it.
pub record StopsSoon (d : Dino) : Type 0 where
  pub shown : d.led ≡ d.pin
  pub ends : d.pin ≡ true → d.clear_timer ≡ some move_time

dino_move-StopsSoon :
    (observed : Bool) (req : Request) (d : Dino)
    → StopsSoon d
    → StopsSoon (dino_move observed req d).1
unfolding dino_move
dino_move-StopsSoon observed req d v = ground arith

Step-StopsSoon : {d d' : Dino} → Step d d' → StopsSoon d → StopsSoon d'
unfolding clear_dino toggle_dino set_dino
Step-StopsSoon {d} (request observed req) v = dino_move-StopsSoon observed req d v
Step-StopsSoon {d} button v = record { shown = rw v.shown refl; ends = λ h. refl }
Step-StopsSoon {d} main_ends v = record { shown = refl; ends = λ h. refl }
Step-StopsSoon {d} (timeout e) v = record { shown = refl; ends = λ h. cc }

-- After any requests, pushes of the on-board button and ends of the timer, the LED shows whether
-- the dinosaur moves, and while it moves the timer that stops it is set.
pub Reach-StopsSoon : {d : Dino} → Reach d → StopsSoon d
Reach-StopsSoon boot = record { shown = refl; ends = λ h. cc }
Reach-StopsSoon (next r s) = Step-StopsSoon s (Reach-StopsSoon r)

abbrev last_digit : ℕ → List ℕ
last_digit n = (b'0' + n % 10) ∷ []

decimal_fuel_not_empty : (f n : ℕ) → 1 ≤ length (decimal_fuel (suc f) n)
unfolding decimal_fuel
decimal_fuel_not_empty f n = ground (arith, length-append (decimal_fuel f (n / 10)) (last_digit n))

-- One more digit for a number ten times as large.
decimal_fuel_longer :
    (f n k : ℕ)
    → 1 ≤ k
    → length (decimal_fuel f (n / 10)) ≤ k
    → length (decimal_fuel (suc f) n) ≤ suc k
unfolding decimal_fuel
decimal_fuel_longer f n k h le =
    ground (arith, length-append (decimal_fuel f (n / 10)) (last_digit n))

one_digit : (f n : ℕ) → n < 10 → length (decimal_fuel f n) ≤ 1
unfolding decimal_fuel
one_digit zero n h = omega arith
one_digit (suc f) n h = ground arith

two_digits : (f n : ℕ) → n < 100 → length (decimal_fuel f n) ≤ 2
unfolding decimal_fuel
two_digits zero n h = omega arith
two_digits (suc f) n h =
    decimal_fuel_longer f n 1 (omega arith) (one_digit f (n / 10) (omega arith))

three_digits : (f n : ℕ) → n < 1000 → length (decimal_fuel f n) ≤ 3
unfolding decimal_fuel
three_digits zero n h = omega arith
three_digits (suc f) n h =
    decimal_fuel_longer f n 2 (omega arith) (two_digits f (n / 10) (omega arith))

-- What is posted for points below 1000 has a size that the handlers of points allow.
length-print_payload :
    (n : ℕ)
    → n < 1000
    → (12 ≤ length (print_payload points_key n)) × (length (print_payload points_key n) ≤ 14)
unfolding print_payload print_u
length-print_payload n h =
    let size = length-append (decimal_fuel (n + 1) n) (b'}' ∷ []) in
    let most = three_digits (n + 1) n h in
    let least : 1 ≤ length (decimal_fuel (n + 1) n) = rw add-one (decimal_fuel_not_empty n n) in
    omega (arith, size, most, least)

-- Points below 1000 that are posted as `post_points_to_target` prints them are accepted by the
-- handlers of points, and read as that number.
pub posted_number-print_payload :
    (n : ℕ)
    → n < 1000
    → posted_number points_key 12 14
        (record { method = post; content_type = json; payload = print_payload points_key n })
      ≡ some n
unfolding posted_number
posted_number-print_payload n h =
    let (least, most) = length-print_payload n h in
    ground (arith, least, most, scan-print_payload points_key n (omega arith))
