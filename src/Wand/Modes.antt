-- ===== src/Wand/Modes.antt =====
-- The handlers of wand/main.c for "normal mode" and "set time mode", and its timer callback.
use riot_playground.Common.{
  ℕ, zero, suc, ◌+◌, ◌-◌, ◌/◌, ◌%◌, List, [], ◌∷◌, Bool, true, false, not, ltb, if◌then◌else◌, ◌▷◌,
}
use riot_playground.Wand.Hardware.{
  Pin, led_light, btn_light, btn_time, falling, rising, Handler, led0_off, rtc_init, adc_init,
  gpio_init, gpio_set, gpio_clear, gpio_toggle, gpio_init_int, timer_init, timer_start, timer_stop,
  timer_clear, timer_set,
}
use riot_playground.Wand.State.{
  SetTimeMode, mode_off, mode_quarters, mode_hours, Wand, Inputs, emit, set_lights_on, set_blinking,
  set_mode, set_hour, set_quarter,
}
use riot_playground.Wand.Display.{
  hour_max, quarter_max, time_array, show_time, turn_off_time_display,
}
use riot_playground.Wand.Power.{battery_voltage, permillage, bar, show_bar}
use riot_playground.Wand.Clock.{time_get, time_set}

abbrev pub power_bar_channel : ℕ
power_bar_channel = 0

abbrev pub set_time_channel : ℕ
set_time_channel = 1

abbrev pub power_bar_timeout : ℕ
power_bar_timeout = 1000000

abbrev pub set_time_timeout : ℕ
set_time_timeout = 3000000

abbrev pub blink_timeout : ℕ
blink_timeout = 500000

-- `if (_lights_on) gpio_set(LED_LIGHT); else gpio_clear(LED_LIGHT);`
abbrev show_light : Wand → Wand
show_light w = emit (if w.lights_on then gpio_set led_light else gpio_clear led_light) w

unfoldable pub init_normal_mode : Wand → Wand
init_normal_mode w =
    w
    ▷ emit (timer_stop 1)
    ▷ set_mode mode_off
    ▷ set_blinking false
    ▷ emit (timer_clear 1 power_bar_channel)
    ▷ emit (timer_clear 1 set_time_channel)
    ▷ emit (gpio_init_int btn_light falling Handler.btn_light_push)
    ▷ emit (gpio_init_int btn_time falling Handler.btn_time_push)
    ▷ turn_off_time_display
    ▷ show_light

unfoldable pub btn_light_push : Wand → Wand
btn_light_push w =
    set_lights_on (not w.lights_on) w
    ▷ emit (gpio_init_int btn_light rising Handler.btn_light_release)
    ▷ emit (timer_start 1)
    ▷ emit (timer_set 1 power_bar_channel power_bar_timeout)

unfoldable pub btn_light_release : Wand → Wand
btn_light_release w =
    w
    ▷ emit (timer_clear 1 power_bar_channel)
    ▷ emit (timer_stop 1)
    ▷ show_light
    ▷ emit (gpio_init_int btn_light falling Handler.btn_light_push)

unfoldable pub btn_time_push : Inputs → Wand → Wand
btn_time_push inp w =
    w
    ▷ turn_off_time_display
    ▷ time_get inp.rtc
    ▷ show_time gpio_set
    ▷ emit (gpio_init_int btn_time rising Handler.btn_time_release)
    ▷ emit (timer_start 1)
    ▷ emit (timer_set 1 set_time_channel set_time_timeout)

unfoldable pub btn_time_release : Wand → Wand
btn_time_release w =
    w
    ▷ emit (timer_clear 1 set_time_channel)
    ▷ turn_off_time_display
    ▷ emit (gpio_init_int btn_time falling Handler.btn_time_push)

unfoldable pub show_power_off : Wand → Wand
show_power_off w =
    w ▷ turn_off_time_display ▷ emit (gpio_init_int btn_light falling Handler.btn_light_push)

unfoldable pub show_power : Inputs → Wand → Wand
show_power inp w =
    let w' = emit (gpio_init_int btn_light rising Handler.show_power_off) w in
    record w' { calls = show_bar (permillage (battery_voltage inp.adc)) bar w'.calls }

abbrev pub in_set_time_mode : SetTimeMode → Bool
in_set_time_mode mode_off = false
in_set_time_mode mode_quarters = true
in_set_time_mode mode_hours = true

unfoldable pub blink : Wand → Wand
blink w = w ▷ show_time gpio_toggle ▷ emit (timer_set 1 0 blink_timeout)

-- The two `timer_clear` name timer 0, all other calls name timer 1.
unfoldable pub return_to_blink : Wand → Wand
unfolding blink
return_to_blink w =
    w
    ▷ emit (timer_clear 0 power_bar_channel)
    ▷ emit (timer_clear 0 set_time_channel)
    ▷ turn_off_time_display
    ▷ set_blinking true
    ▷ emit (timer_start 1)
    ▷ blink

unfoldable pub init_set_time_mode : Wand → Wand
unfolding return_to_blink
init_set_time_mode w =
    w
    ▷ emit (gpio_init_int btn_light falling Handler.decrement)
    ▷ emit (gpio_init_int btn_time falling Handler.increment)
    ▷ set_mode mode_hours
    ▷ return_to_blink

unfoldable pub decrement : Wand → Wand
decrement w =
    w
    ▷ emit (gpio_init_int btn_light rising Handler.do_decrement)
    ▷ show_time gpio_set
    ▷ set_blinking false
    ▷ emit (timer_clear 1 0)
    ▷ emit (timer_set 1 power_bar_channel (set_time_timeout / 2))

-- The `switch` of `_do_decrement`.
unfoldable pub decrement_by_mode : SetTimeMode → Wand → Wand
unfolding init_normal_mode
decrement_by_mode mode_hours w =
    set_hour (if ltb 0 w.cur_hour then w.cur_hour - 1 else hour_max - 1) w
decrement_by_mode mode_quarters w =
    set_quarter (if ltb 0 w.cur_quarter then w.cur_quarter - 1 else quarter_max - 1) w
decrement_by_mode mode_off w = init_normal_mode w

unfoldable pub do_decrement : Wand → Wand
unfolding decrement_by_mode return_to_blink
do_decrement w =
    w
    ▷ emit (timer_clear 1 power_bar_channel)
    ▷ emit (gpio_init_int btn_light falling Handler.decrement)
    ▷ decrement_by_mode w.set_time_mode
    ▷ return_to_blink

unfoldable pub increment : Wand → Wand
increment w =
    w
    ▷ emit (gpio_init_int btn_time rising Handler.do_increment)
    ▷ show_time gpio_set
    ▷ set_blinking false
    ▷ emit (timer_clear 1 0)
    ▷ emit (timer_set 1 set_time_channel (set_time_timeout / 2))

-- The `switch` of `_do_increment`.
unfoldable pub increment_by_mode : SetTimeMode → Wand → Wand
unfolding init_normal_mode
increment_by_mode mode_hours w = set_hour ((w.cur_hour + 1) % hour_max) w
increment_by_mode mode_quarters w = set_quarter ((w.cur_quarter + 1) % quarter_max) w
increment_by_mode mode_off w = init_normal_mode w

unfoldable pub do_increment : Wand → Wand
unfolding increment_by_mode return_to_blink
do_increment w =
    w
    ▷ emit (timer_clear 1 set_time_channel)
    ▷ emit (gpio_init_int btn_time falling Handler.increment)
    ▷ increment_by_mode w.set_time_mode
    ▷ return_to_blink

-- The inner `switch` of `_timeout`; the case of `SET_TIME_MODE_QUARTERS` falls through.
unfoldable pub next_mode : SetTimeMode → Wand → Wand
unfolding init_set_time_mode init_normal_mode
next_mode mode_off w = init_set_time_mode w
next_mode mode_hours w = set_mode mode_quarters w
next_mode mode_quarters w = w ▷ time_set ▷ init_normal_mode

-- The outer `switch` of `_timeout`.
unfoldable pub timeout_on : ℕ → Inputs → Wand → Wand
unfolding init_normal_mode show_power return_to_blink next_mode
timeout_on zero inp w =
    let w' = if in_set_time_mode w.set_time_mode then init_normal_mode w else show_power inp w in
    set_lights_on (not w'.lights_on) w' ▷ emit (timer_stop 1)
timeout_on (suc zero) inp w =
    w
    ▷ emit (gpio_init_int btn_light falling Handler.decrement)
    ▷ emit (gpio_init_int btn_time falling Handler.increment)
    ▷ return_to_blink
    ▷ next_mode w.set_time_mode
timeout_on (suc (suc channel)) inp w = w

unfoldable pub timeout : ℕ → Inputs → Wand → Wand
unfolding blink timeout_on
timeout channel inp w = if w.blinking then blink w else timeout_on channel inp w

-- What the GPIO driver runs for an edge whose callback is `h`.
unfoldable pub run_handler : Handler → Inputs → Wand → Wand
unfolding btn_light_push btn_light_release btn_time_push btn_time_release show_power_off decrement
    do_decrement increment do_increment
run_handler Handler.btn_light_push inp w = btn_light_push w
run_handler Handler.btn_light_release inp w = btn_light_release w
run_handler Handler.btn_time_push inp w = btn_time_push inp w
run_handler Handler.btn_time_release inp w = btn_time_release w
run_handler Handler.show_power_off inp w = show_power_off w
run_handler Handler.decrement inp w = decrement w
run_handler Handler.do_decrement inp w = do_decrement w
run_handler Handler.increment inp w = increment w
run_handler Handler.do_increment inp w = do_increment w

abbrev init_leds : List Pin → Wand → Wand
init_leds [] w = w
init_leds (p ∷ ps) w = init_leds ps (emit (gpio_init p) w)

-- The static variables before `main`: all zero.
abbrev pub zero_wand : Wand
zero_wand = record {
  lights_on = false;
  blinking = false;
  set_time_mode = mode_off;
  time = record { tm_hour = 0; tm_min = 0; tm_sec = 0; tm_others = [] };
  cur_hour = 0;
  cur_quarter = 0;
  calls = [];
}

unfoldable pub main : Wand
unfolding init_normal_mode
main =
    zero_wand
    ▷ emit led0_off
    ▷ emit rtc_init
    ▷ emit adc_init
    ▷ emit (gpio_init led_light)
    ▷ init_leds time_array
    ▷ emit (timer_init 1)
    ▷ init_normal_mode
