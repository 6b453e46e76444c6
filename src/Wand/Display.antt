-- ===== src/Wand/Display.antt =====
-- The time display of wand/main.c: `_time_encode`, `_show_time` and `_turn_off_time_display`.
use Prim.Native.Nat.{bit_or}
use riot_playground.Common.{
  ℕ, ◌+◌, ◌-◌, ◌*◌, ◌/◌, ◌%◌, ◌^◌, List, [], ◌∷◌, Bool, true, false, ◌&&◌, ◌||◌, ltb, leb, ◌==◌,
  if◌then◌else◌, u8,
}
use riot_playground.Wand.Hardware.{
  Pin, led_minute_yellow, led_minute_green, led_minute_blue, led_minute_gray, led_hour_brown,
  led_hour_purple, led_hour_red, led_hour_orange, Call, gpio_set, gpio_clear,
}
use riot_playground.Wand.State.{Wand, SetTimeMode, mode_off, mode_quarters, mode_hours}

abbrev pub time_leds_qtrs_idx : ℕ
time_leds_qtrs_idx = 3

abbrev pub hour_max : ℕ
hour_max = 12

abbrev pub quarter_max : ℕ
quarter_max = 8

abbrev pub time_array : List Pin
time_array =
    led_minute_yellow ∷ led_minute_green ∷ led_minute_blue ∷ led_minute_gray ∷ led_hour_brown
    ∷ led_hour_purple ∷ led_hour_red ∷ led_hour_orange ∷ []

unfoldable pub time_encode : ℕ → ℕ → ℕ
time_encode hour quarter =
    let hour' = if hour == 0 then hour_max else hour in
    let res = u8 (hour' * 2 ^ 4) in
    if quarter == quarter_max - 1
    then u8 (bit_or res 0x9)
    else if quarter % 2 == 0
    then u8 (bit_or res (0x1 * 2 ^ (quarter / 2)))
    else u8 (bit_or res (0x3 * 2 ^ (quarter / 2)))

abbrev pub is_quarters : SetTimeMode → Bool
is_quarters mode_quarters = true
is_quarters mode_off = false
is_quarters mode_hours = false

abbrev pub is_hours : SetTimeMode → Bool
is_hours mode_hours = true
is_hours mode_off = false
is_hours mode_quarters = false

-- Whether LED `i` is shown by the function that `_show_time` is given, and not statically.
abbrev pub is_current : SetTimeMode → ℕ → Bool
is_current mode i =
    (is_quarters mode && leb i time_leds_qtrs_idx) || (is_hours mode && ltb time_leds_qtrs_idx i)

abbrev pub led_call : SetTimeMode → (Pin → Call) → ℕ → Pin → Call
led_call mode gpio_show i p = if is_current mode i then gpio_show p else gpio_set p

-- The loop of `_show_time` from LED `i` on, with what is left of the mask.
unfoldable pub show_leds : SetTimeMode → (Pin → Call) → ℕ → ℕ → List Pin → List Call → List Call
show_leds mode gpio_show i mask [] cs = cs
show_leds mode gpio_show i mask (p ∷ ps) cs =
    show_leds mode gpio_show (i + 1) (mask / 2) ps
      (if mask % 2 == 1 then led_call mode gpio_show i p ∷ cs else cs)

abbrev pub show_time : (Pin → Call) → Wand → Wand
show_time gpio_show w = record w {
  calls =
      show_leds w.set_time_mode gpio_show 0 (time_encode w.cur_hour w.cur_quarter) time_array
        w.calls;
}

abbrev clear_leds : List Pin → List Call → List Call
clear_leds [] cs = cs
clear_leds (p ∷ ps) cs = clear_leds ps (gpio_clear p ∷ cs)

abbrev pub turn_off_time_display : Wand → Wand
turn_off_time_display w = record w { calls = clear_leds time_array w.calls }
