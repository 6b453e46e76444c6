-- ===== src/Wand/Board.antt =====
-- What the documentation of RIOT's GPIO driver says of the calls: `gpio_set`, `gpio_clear` and
-- `gpio_toggle` write the level of an output, and `gpio_init_int` registers the callback for an
-- edge, which stays until it is registered anew.
use riot_playground.Common.{
  ℕ, List, [], ◌∷◌, Bool, true, false, not, ◌==◌, if◌then◌else◌, Option, some, ◌≡◌, refl, ◌∙◌, ap,
}
use mathlib.Core.Path.{fun_ext}
use riot_playground.Wand.Hardware.{
  Pin, led_minute_yellow, led_minute_green, led_minute_blue, led_minute_gray, led_hour_brown,
  led_hour_purple, led_hour_red, led_hour_orange, led_light, btn_time, btn_light, Edge, Handler,
  Call, gpio_init, gpio_set, gpio_clear, gpio_toggle, gpio_init_int,
}

abbrev pub pin_id : Pin → ℕ
pin_id led_minute_yellow = 0
pin_id led_minute_green = 1
pin_id led_minute_blue = 2
pin_id led_minute_gray = 3
pin_id led_hour_brown = 4
pin_id led_hour_purple = 5
pin_id led_hour_red = 6
pin_id led_hour_orange = 7
pin_id led_light = 8
pin_id btn_time = 9
pin_id btn_light = 10

abbrev pub same : Pin → Pin → Bool
same p q = pin_id p == pin_id q

-- The level of pin `q` after a call, where it was `b` and where `gpio_init` leaves it at `r`.
abbrev pub level_after : Bool → Call → Pin → Bool → Bool
level_after r (gpio_set p) q b = if same p q then true else b
level_after r (gpio_clear p) q b = if same p q then false else b
level_after r (gpio_toggle p) q b = if same p q then not b else b
level_after r (gpio_init p) q b = if same p q then r else b
level_after r _ q b = b

-- The callback of pin `q` after a call, where it was `h`.
abbrev pub callback_after : Call → Pin → Option (Edge × Handler) → Option (Edge × Handler)
callback_after (gpio_init_int p e f) q h = if same p q then some (e, f) else h
callback_after _ q h = h

-- A board as the program sees it: levels and callbacks after any sequence of calls.
pub record Board : Type 0 where
  pub initial : Bool
  pub level : List Call → Pin → Bool
  pub callback : List Call → Pin → Option (Edge × Handler)
  pub level_cons :
      (c : Call) (cs : List Call) (q : Pin)
      → level (c ∷ cs) q ≡ level_after initial c q (level cs q)
  pub callback_cons :
      (c : Call) (cs : List Call) (q : Pin)
      → callback (c ∷ cs) q ≡ callback_after c q (callback cs q)

-- The same by recursion on the calls, for proofs that compute.
abbrev pub level_from : Bool → (Pin → Bool) → List Call → Pin → Bool
level_from r l [] q = l q
level_from r l (c ∷ cs) q = level_after r c q (level_from r l cs q)

abbrev pub callback_from :
    (Pin → Option (Edge × Handler)) → List Call → Pin → Option (Edge × Handler)
callback_from f [] q = f q
callback_from f (c ∷ cs) q = callback_after c q (callback_from f cs q)

module _ (B : Board) where
  open B use {initial, level, callback, level_cons, callback_cons}

  level-eq : (cs : List Call) (q : Pin) → level cs q ≡ level_from initial (level []) cs q
  level-eq [] q = refl
  level-eq (c ∷ cs) q = level_cons c cs q ∙ ap (level_after initial c q) (level-eq cs q)

  callback-eq : (cs : List Call) (q : Pin) → callback cs q ≡ callback_from (callback []) cs q
  callback-eq [] q = refl
  callback-eq (c ∷ cs) q = callback_cons c cs q ∙ ap (callback_after c q) (callback-eq cs q)

  pub level_from_lem : level ≡ level_from initial (level [])
  level_from_lem = fun_ext λ cs. fun_ext λ q. level-eq cs q

  pub callback_from_lem : callback ≡ callback_from (callback [])
  callback_from_lem = fun_ext λ cs. fun_ext λ q. callback-eq cs q
