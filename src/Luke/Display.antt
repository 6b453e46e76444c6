-- ===== src/Luke/Display.antt =====
-- lndw18_luke/display/main.c: the points, the difficulty, the victory and the strip of LEDs.
-- A handler, the button's interrupt and a round of the main loop each run undivided. Printing is
-- not modelled; a colour is one number.
pub mod Colors
pub mod Strip
pub mod Invariant
pub mod Victory
mod Tests
use riot_playground.Common.{
  ℕ, zero, suc, ◌+◌, ◌-◌, ◌*◌, ◌/◌, ◌%◌, List, [], ◌∷◌, Bool, true, false, not, Option, none, some,
  leb, ltb, ◌==◌, if◌then◌else◌, ◌▷◌, u8, u16, u32, length, get_or, replicate, set,
}
use riot_playground.Common.Decimal.{print_u}
use riot_playground.Luke.Payload.{points_key, difficulty_key, print_payload}
use riot_playground.Luke.Coap.{
  Method, get, post, other, Code, valid, content, bad_request, Request, Response, posted_number,
}

-- What the program sends: notifications of observers, and its points to the target.
pub data Output : Type 0 where
  notify_points notify_difficulty : ℕ → Output
  post_points : ℕ → Output

pub record Display : Type 0 where
  pub points : ℕ
  pub last_notified : ℕ
  pub in_victory_cond : ℕ
  pub difficulty : ℕ
  pub last_reported_difficulty : ℕ
  pub dec_flag : Bool
  pub color_map : List ℕ
  pub leds : List ℕ
  pub outputs : List Output

abbrev pub points_per_led : ℕ
points_per_led = 1

abbrev pub point_drop_value : ℕ
point_drop_value = 2

abbrev pub drop_timeout_max : ℕ
drop_timeout_max = 1000000

abbrev pub difficulty_max : ℕ
difficulty_max = 10

abbrev pub victory_cond : ℕ
victory_cond = 5

abbrev pub victory_reset_threshold : ℕ
victory_reset_threshold = 3

-- `observed` is whether `gcoap_obs_init` finds an observer of the resource.
abbrev notify_points_of : Bool → Display → Display
notify_points_of observed d =
    if observed then record d { outputs = notify_points d.points ∷ d.outputs } else d

unfoldable pub notify_difficulty_of : Bool → Display → Display
notify_difficulty_of observed d =
    if observed
    then record d {
      last_reported_difficulty = d.difficulty;
      outputs = notify_difficulty d.difficulty ∷ d.outputs;
    }
    else d

-- The loop of `_display_points` from LED `i` on, for `n` more LEDs. A write past the strip has no
-- effect here; the invariant rules it out.
unfoldable pub light : List ℕ → ℕ → ℕ → List ℕ → List ℕ
light colors zero i leds = leds
light colors (suc n) i leds = light colors n (i + 1) (set leds i (get_or colors i 0))

-- The time until the next drop, at a difficulty.
unfoldable pub drop_timeout : ℕ → ℕ
drop_timeout difficulty = drop_timeout_max - drop_timeout_max * (difficulty - 1) / difficulty_max

-- How a round of the main loop ends: it sleeps for a time, or waits for the flag.
pub data Wait : Type 0 where
  sleep : ℕ → Wait
  wait_flag : Wait

-- The static variables before `main`, with the colour map that `_init_color_map` will compute.
abbrev pub initial : List ℕ → Display
initial colors = record {
  points = 64;
  last_notified = 0;
  in_victory_cond = 0;
  difficulty = 9;
  last_reported_difficulty = 0;
  dec_flag = false;
  color_map = colors;
  leds = [];
  outputs = [];
}

-- LPD8808_PARAM_LED_CNT, which the build sets.
module _ (led_cnt : ℕ) where
  abbrev pub points_max : ℕ
  points_max = led_cnt * points_per_led

  unfoldable pub display_points : Bool → Display → Display
  display_points observed d =
      let shown = record d {
        leds = light d.color_map (d.points / points_per_led) 0 (replicate led_cnt 0);
      } in
      if d.last_notified == d.points
      then shown
      else record (notify_points_of observed shown) { last_notified = d.points }

  -- `p` is an `int`; as a number of 32 bits it is added to the points modulo 2 ^ 16 all the same.
  unfoldable pub increment_points : Bool → ℕ → Display → Display
  unfolding display_points
  increment_points observed p d =
      let new_points = u16 (d.points + p) in
      let flagged = record d { dec_flag = true } in
      display_points observed (
        if ltb points_max new_points
        then record flagged { points = points_max; in_victory_cond = u8 (d.in_victory_cond + 1) }
        else record flagged { points = new_points })

  unfoldable pub decrement_points : Bool → ℕ → Display → Display
  unfolding display_points
  decrement_points observed p d =
      let points' = if ltb d.points p then 0 else u8 (d.points - p) in
      let dropped = record d { points = points' } in
      display_points observed (
        if ltb points' (u32 (points_max + 4294967296 - victory_reset_threshold))
        then record dropped { in_victory_cond = 0 }
        else dropped)

  -- The handler of `/dsp/points`.
  unfoldable pub luke_points : Bool → Request → Display → Response × Display
  unfolding increment_points
  luke_points observed req d = elim req.method [
    | get ↦ (some (content, print_payload points_key d.points), d)
    | post ↦ elim (posted_number points_key 12 14 req) [
      | none ↦ (some (bad_request, []), d)
      | some p ↦ (some (valid, []), increment_points observed p d)
    ]
    | other ↦ (none, d)
  ]

  -- The button's interrupt.
  unfoldable pub incr_difficulty : Display → Display
  incr_difficulty d =
      let d' = if leb difficulty_max d.difficulty then 1 else u8 (d.difficulty + 1) in
      record d { difficulty = d'; points = u16 (d' * points_max / difficulty_max); dec_flag = true }

  -- The handler of `/dsp/dif`.
  unfoldable pub luke_difficulty : Bool → Request → Display → Response × Display
  unfolding notify_difficulty_of
  luke_difficulty observed req d = elim req.method [
    | get ↦ (some (content, print_payload difficulty_key d.difficulty), d)
    | post ↦ elim (posted_number difficulty_key 16 17 req) [
      | none ↦ (some (bad_request, []), d)
      | some n ↦
          let new = if n == 0 then 1 else if ltb 10 n then 10 else n in
          let d' = record (notify_difficulty_of observed d) { difficulty = new } in
          (some (valid, print_payload difficulty_key new), d')
    ]
    | other ↦ (none, d)
  ]

  -- A round of the main loop. The two Booleans say whether the points and the difficulty are
  -- observed.
  unfoldable pub round : Bool → Bool → Display → Wait × Display
  unfolding decrement_points notify_difficulty_of drop_timeout
  round points_observed difficulty_observed d =
      let posted =
        if leb victory_cond d.in_victory_cond
        then record d { outputs = post_points d.points ∷ d.outputs }
        else d in
      let dropped = decrement_points points_observed point_drop_value posted in
      let reported =
        if dropped.difficulty == dropped.last_reported_difficulty
        then dropped
        else notify_difficulty_of difficulty_observed dropped in
      (
        if ltb 0 reported.points then sleep (drop_timeout reported.difficulty) else wait_flag,
        reported,
      )
