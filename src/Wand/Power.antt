-- ===== src/Wand/Power.antt =====
-- The power bar of wand/main.c: `_show_power`, but for the registration of its button handler.
use riot_playground.Common.{ℕ, ◌-◌, ◌*◌, ◌/◌, List, ◌∷◌, leb, ltb, [], if◌then◌else◌}
use riot_playground.Common.Int.{ℤ, pos, negsuc}
use riot_playground.Wand.Hardware.{
  Pin, led_minute_yellow, led_minute_green, led_minute_blue, led_minute_gray, led_hour_brown,
  led_hour_purple, led_hour_red, led_hour_orange, Call, gpio_set,
}

abbrev pub voltage_min : ℕ
voltage_min = 3276

abbrev pub voltage_max : ℕ
voltage_max = 4301

-- `batv *= (2 * 3.3)` drops the fraction; a negative sample is an error of the ADC.
abbrev pub battery_voltage : ℤ → ℕ
battery_voltage (negsuc n) = voltage_max
battery_voltage (pos n) = n * 66 / 10

unfoldable pub permillage : ℕ → ℕ
permillage batv =
    if leb batv voltage_min
    then 0
    else if ltb voltage_max batv
    then 1001
    else (batv - voltage_min) * 1000 / (voltage_max - voltage_min)

-- The LED that each `if (permillage >= limit)` turns on, in the order of the code.
abbrev pub bar : List (ℕ × Pin)
bar =
    (125, led_hour_orange)
    ∷ (250, led_hour_red)
    ∷ (375, led_hour_purple)
    ∷ (500, led_hour_brown)
    ∷ (625, led_minute_yellow)
    ∷ (750, led_minute_green)
    ∷ (875, led_minute_blue)
    ∷ (1000, led_minute_gray)
    ∷ []

unfoldable pub show_bar : ℕ → List (ℕ × Pin) → List Call → List Call
show_bar p [] cs = cs
show_bar p ((limit, led) ∷ bs) cs = show_bar p bs (if leb limit p then gpio_set led ∷ cs else cs)
