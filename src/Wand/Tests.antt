-- ===== src/Wand/Tests.antt =====
-- The wand's theorems at concrete inputs, and runs of its functions.
use riot_playground.Common.{◌/◌, ◌%◌, ◌<◌, ◌≡◌, refl, [], ◌∷◌, true, false, none, some, arith}
use riot_playground.Common.Int.{pos}
use riot_playground.Wand.Hardware.{
  led_minute_yellow, led_minute_green, led_hour_orange, led_hour_purple, led_light, falling,
  Handler,
}
use riot_playground.Wand.Board.{Board, level_from, callback_from}
use riot_playground.Wand.State.{Wand, mode_off, mode_quarters, mode_hours, Inputs}
use riot_playground.Wand.Display.{time_encode}
use riot_playground.Wand.Encode.{decode_quarter, bit-time_encode, bit, decode-time_encode}
use riot_playground.Wand.Clock.{time_get, time_set, minute_of}
use riot_playground.Wand.Modes.{
  main, zero_wand, btn_time_push, blink, show_power, timeout, run_handler,
}
use riot_playground.Wand.Invariant.{Inv, IsClock}
use riot_playground.Wand.Reach.{start, next, time_edge, alarm, Reach-Inv}
use riot_playground.Wand.Readout.{btn_time_push_shows_time, blink_lem}
use riot_playground.Wand.Battery.{show_power_lem}
use riot_playground.Wand.Light.{click, hold, click_toggles, hold_keeps, leaving_flips_light}
use riot_playground.Wand.Setting.{
  last_set, time_get-time_set, press_light, press_time, press_light-press_time, hold_time,
  set_time_cycle,
}

-- A board whose pins are low and have no callback at first.
abbrev dark_board : Board
dark_board = record {
  initial = false;
  level = level_from false (λ q. false);
  callback = callback_from (λ q. none);
  level_cons = λ c cs q. refl;
  callback_cons = λ c cs q. refl;
}

-- 15:38, and a sample of 3960 mV.
abbrev afternoon : Inputs
afternoon = record {
  rtc = record { tm_hour = 15; tm_min = 38; tm_sec = 20; tm_others = 5 ∷ [] };
  adc = pos 600;
}

abbrev setting_hours : Wand
setting_hours = record zero_wand { set_time_mode = mode_hours; cur_hour = 11; cur_quarter = 7 }

bit-time_encode_example : (bit (time_encode 3 7) 3 ≡ true) × (bit (time_encode 3 7) 7 ≡ false)
bit-time_encode_example = bit-time_encode 3 7 3 (omega arith) (omega arith) (omega arith)

hours_read : (time_encode 0 5 / 16 ≡ 12) × (decode_quarter (time_encode 0 5 % 16) ≡ 5)
hours_read = decode-time_encode 0 5 (omega arith) (omega arith)

encode_three_oclock : time_encode 3 0 ≡ 0x31
unfolding time_encode
encode_three_oclock = refl

afternoon-IsClock : IsClock afternoon.rtc
afternoon-IsClock = omega arith

-- The time button is pushed and held until the timer fires.
abbrev held : Wand
held = timeout 1 afternoon (run_handler Handler.btn_time_push afternoon main)

Reach-Inv_example : Inv dark_board.callback held
unfolding main
Reach-Inv_example = Reach-Inv dark_board (
    next (next start (time_edge falling Handler.btn_time_push afternoon afternoon-IsClock refl))
      (alarm 1 afternoon))

btn_time_push_shows_time_example :
    let cs = (btn_time_push afternoon zero_wand).calls in
    (dark_board.level cs led_minute_green ≡ false) × (dark_board.level cs led_hour_purple ≡ true)
btn_time_push_shows_time_example =
    btn_time_push_shows_time dark_board afternoon zero_wand 1 afternoon-IsClock (omega arith)

-- Hour 11 is 0b1011: its third bit is not lit and stays dark, the fourth is toggled.
blink_lem_run : dark_board.level (blink setting_hours).calls led_hour_orange ≡ true
unfolding time_encode
blink_lem_run = blink_lem dark_board setting_hours 7 (omega arith)

show_power_lem_example :
    dark_board.level (show_power afternoon zero_wand).calls led_minute_yellow ≡ true
show_power_lem_example = show_power_lem dark_board afternoon zero_wand 4 (omega arith)

click_toggles_run :
    ((click zero_wand).lights_on ≡ true)
    × (dark_board.level (click zero_wand).calls led_light ≡ true)
click_toggles_run = click_toggles dark_board zero_wand

hold_keeps_run :
    ((hold afternoon zero_wand).lights_on ≡ false)
    × (dark_board.level (hold afternoon zero_wand).calls led_light ≡ false)
hold_keeps_run = hold_keeps dark_board afternoon zero_wand refl refl

leaving_flips_light_run :
    let w = timeout 0 afternoon setting_hours in
    (w.set_time_mode ≡ mode_off)
    × (w.lights_on ≡ true)
    × (dark_board.level w.calls led_light ≡ false)
    × (dark_board.level (click w).calls led_light ≡ false)
leaving_flips_light_run = leaving_flips_light dark_board afternoon setting_hours refl refl

time_get-time_set_example :
    let t = (time_set setting_hours).time in
    (last_set (time_set setting_hours).calls ≡ some t)
    × (t.tm_hour < 24)
    × (t.tm_min < 60)
    × (t.tm_sec ≡ 0)
    × ((time_get t setting_hours).cur_hour ≡ 11)
    × ((time_get t setting_hours).cur_quarter ≡ 7)
time_get-time_set_example = time_get-time_set setting_hours (omega arith) (omega arith)

press_light-press_time_run :
    ((press_light (press_time setting_hours)).cur_hour ≡ 11)
    × ((press_light (press_time setting_hours)).cur_quarter ≡ 7)
    × ((press_time (press_light setting_hours)).cur_hour ≡ 11)
    × ((press_time (press_light setting_hours)).cur_quarter ≡ 7)
press_light-press_time_run =
    press_light-press_time setting_hours (λ e. cc) (omega arith) (omega arith)

set_time_cycle_example :
    let w1 = timeout 1 afternoon zero_wand in
    let w2 = hold_time afternoon w1 in
    let w3 = hold_time afternoon w2 in
    ((w1.set_time_mode ≡ mode_hours) × (w1.blinking ≡ true))
    × ((w2.set_time_mode ≡ mode_quarters) × (w2.blinking ≡ true))
    × ((w3.set_time_mode ≡ mode_off) × (w3.blinking ≡ false))
    × (last_set w3.calls
        ≡ some (record { tm_hour = 0; tm_min = minute_of 0; tm_sec = 0; tm_others = [] }))
    × ((w1.cur_hour ≡ 0) × (w1.cur_quarter ≡ 0))
    × ((w2.cur_hour ≡ 0) × (w2.cur_quarter ≡ 0))
    × ((w3.cur_hour ≡ 0) × (w3.cur_quarter ≡ 0))
set_time_cycle_example = set_time_cycle afternoon afternoon afternoon zero_wand refl refl
