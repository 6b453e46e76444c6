-- ===== src/Luke/Display/Invariant.antt =====
-- What holds of the display between two handlers, and what each of them does to the points.
use riot_playground.Common.{ℕ, ◌+◌, ◌-◌, ◌*◌, ◌/◌, ◌^◌, ◌≤◌, ◌<◌, ◌≡◌, List, Bool, arith, u8}
use Prim.Native.Nat.{min}
use riot_playground.Luke.Coap.{Request}
use riot_playground.Luke.Display.{
  Display, increment_points, decrement_points, luke_points, incr_difficulty, luke_difficulty, round,
  drop_timeout, initial,
}

module _ (led_cnt : ℕ) where
  -- The points are at most the LEDs that there are, so `_display_points` writes inside `_leds`.
  pub record IsValid (d : Display) : Type 0 where
    pub strip_fits : led_cnt < 2 ^ 16
    pub on_strip : d.points ≤ led_cnt
    pub easy_enough : 1 ≤ d.difficulty
    pub hard_enough : d.difficulty ≤ 10

  pub increment_points-IsValid :
      (observed : Bool) (p : ℕ) (d : Display)
      → IsValid d
      → IsValid (increment_points led_cnt observed p d)
  unfolding increment_points
  increment_points-IsValid observed p d v = ground arith

  pub decrement_points-IsValid :
      (observed : Bool) (p : ℕ) (d : Display)
      → IsValid d
      → IsValid (decrement_points led_cnt observed p d)
  unfolding decrement_points
  decrement_points-IsValid observed p d v = ground arith

  pub luke_points-IsValid :
      (observed : Bool) (req : Request) (d : Display)
      → IsValid d
      → IsValid (luke_points led_cnt observed req d).1
  unfolding luke_points
  luke_points-IsValid observed req d v = grind (arith, increment_points-IsValid)

  -- A tenth of `d` times the strip, for `d` of at most ten, is on the strip.
  share_le : (d m : ℕ) → d ≤ 10 → d * m / 10 ≤ m
  share_le d m h = let le : d * m ≤ 10 * m = grind arith in omega arith

  pub incr_difficulty-IsValid : (d : Display) → IsValid d → IsValid (incr_difficulty led_cnt d)
  unfolding incr_difficulty
  incr_difficulty-IsValid d v =
      ground (arith, share_le 1 (led_cnt * 1), share_le (u8 (d.difficulty + 1)) (led_cnt * 1))

  pub luke_difficulty-IsValid :
      (observed : Bool) (req : Request) (d : Display)
      → IsValid d
      → IsValid (luke_difficulty led_cnt observed req d).1
  unfolding luke_difficulty
  luke_difficulty-IsValid observed req d v = ground arith

  pub round-IsValid : (o o' : Bool) (d : Display) → IsValid d → IsValid (round led_cnt o o' d).1
  unfolding round
  round-IsValid o o' d v = ground arith

  -- What can happen to the display between two undivided pieces of code.
  pub data Step (d : Display) : Display → Type 0 where
    points_request : (o : Bool) (req : Request) → Step d (luke_points led_cnt o req d).1
    difficulty_request : (o : Bool) (req : Request) → Step d (luke_difficulty led_cnt o req d).1
    button : Step d (incr_difficulty led_cnt d)
    main_round : (o o' : Bool) → Step d (round led_cnt o o' d).1

  pub data Reach (colors : List ℕ) : Display → Type 0 where
    boot : Reach colors (initial colors)
    next : {d d' : Display} → Reach colors d → Step d d' → Reach colors d'

  Step-IsValid : {d d' : Display} → Step d d' → IsValid d → IsValid d'
  Step-IsValid {d} (points_request o req) v = luke_points-IsValid o req d v
  Step-IsValid {d} (difficulty_request o req) v = luke_difficulty-IsValid o req d v
  Step-IsValid {d} button v = incr_difficulty-IsValid d v
  Step-IsValid {d} (main_round o o') v = round-IsValid o o' d v

  -- On a strip of 64 LEDs or more (and fewer than 2 ^ 16), after any requests, pushes of the button
  -- and rounds of the main loop, the points are at most the LEDs of the strip, so that
  -- `_display_points` writes inside `_leds`, and the difficulty lies between 1 and 10.
  pub Reach-IsValid :
      (colors : List ℕ) {d : Display} → 64 ≤ led_cnt → led_cnt < 2 ^ 16 → Reach colors d → IsValid d
  Reach-IsValid colors h h' boot = omega arith
  Reach-IsValid colors h h' (next r s) = Step-IsValid s (Reach-IsValid colors h h' r)

  -- A drop of points takes off `p`, but stops at 0, as long as the points stay below 256 + p.
  pub points-decrement_points :
      (observed : Bool) (p : ℕ) (d : Display)
      → d.points < 256 + p
      → (decrement_points led_cnt observed p d).points ≡ d.points - p
  unfolding decrement_points
  points-decrement_points observed p d h = ground arith

  -- An increment by `p` adds up to the end of the strip, where no sum passes 2 ^ 16.
  pub points-increment_points :
      (observed : Bool) (p : ℕ) (d : Display)
      → d.points + p < 2 ^ 16
      → (increment_points led_cnt observed p d).points ≡ min (d.points + p) led_cnt
  unfolding increment_points
  points-increment_points observed p d h = ground arith

-- A harder game drops points sooner: the time between two drops lies between a tenth of a second
-- and a second, and each step of difficulty takes off a tenth of a second.
pub drop_timeout_lem :
    (n : ℕ) → 1 ≤ n → n ≤ 10 → (drop_timeout n + 100000 * n ≡ 1100000) × (100000 ≤ drop_timeout n)
unfolding drop_timeout
drop_timeout_lem n h h' = omega arith
