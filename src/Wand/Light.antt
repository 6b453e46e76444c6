-- ===== src/Wand/Light.antt =====
-- The light spell: what pushing and holding the light button does to the light LED.
use riot_playground.Common.{◌≡◌, refl, true, false, not, arith}
use riot_playground.Wand.Hardware.{led_light}
use riot_playground.Wand.Board.{Board, level_from_lem}
use riot_playground.Wand.State.{Wand, mode_off, Inputs}
use riot_playground.Wand.Battery.{level-show_bar}
use riot_playground.Wand.Modes.{
  in_set_time_mode, btn_light_push, btn_light_release, show_power_off, timeout,
}

-- A click: the light button is pushed, and released before the timer fires.
abbrev pub click : Wand → Wand
click w = btn_light_release (btn_light_push w)

-- A long push in normal mode: the timer fires on channel 0 before the button is released.
abbrev pub hold : Inputs → Wand → Wand
hold inp w = show_power_off (timeout 0 inp (btn_light_push w))

-- A click toggles the light: `_lights_on` is negated and the LED follows it.
pub click_toggles :
    (B : Board) (w : Wand)
    → ((click w).lights_on ≡ not w.lights_on)
      × (B.level (click w).calls led_light ≡ not w.lights_on)
unfolding btn_light_push btn_light_release
click_toggles B w = rw (level_from_lem B) (refl, ground arith)

-- A long push in normal mode, which shows the battery's power, keeps the light as it was: both
-- `_lights_on` and the LED.
pub hold_keeps :
    (B : Board) (inp : Inputs) (w : Wand)
    → w.set_time_mode ≡ mode_off
    → w.blinking ≡ false
    → ((hold inp w).lights_on ≡ w.lights_on)
      × (B.level (hold inp w).calls led_light ≡ B.level w.calls led_light)
unfolding btn_light_push timeout show_power_off
hold_keeps B inp w m b = rw (level_from_lem B) (grind (arith, level-show_bar))

-- A long push of the light button in "set time mode" returns to normal mode with the LED showing
-- the old `_lights_on` and the variable negated, so that the next click does not change the LED.
pub leaving_flips_light :
    (B : Board) (inp : Inputs) (w : Wand)
    → in_set_time_mode w.set_time_mode ≡ true
    → w.blinking ≡ false
    → let w' = timeout 0 inp w in
      (w'.set_time_mode ≡ mode_off)
      × (w'.lights_on ≡ not w.lights_on)
      × (B.level w'.calls led_light ≡ w.lights_on)
      × (B.level (click w').calls led_light ≡ w.lights_on)
unfolding btn_light_push btn_light_release timeout
leaving_flips_light B inp w m b = rw (level_from_lem B) (ground arith)
