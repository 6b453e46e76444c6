-- ===== src/Wand/Setting.antt =====
-- Setting the time: the round trip through the RTC, the buttons, and the way through the modes.
use riot_playground.Common.{
  ℕ, zero, suc, ◌+◌, ◌%◌, ◌≤◌, ◌<◌, ◌≡◌, ◌≢◌, refl, ◌∙◌, List, [], ◌∷◌, true, false, Option, none,
  some, arith,
}
use riot_playground.Wand.Hardware.{Tm, Call, rtc_set_time}
use riot_playground.Wand.State.{Wand, mode_off, mode_quarters, mode_hours, Inputs}
use riot_playground.Wand.Clock.{hour_of, quarter_of, minute_of, time_get, time_set}
use riot_playground.Wand.Modes.{increment, do_increment, decrement, do_decrement, timeout}

-- The time that the RTC was last set to.
abbrev pub last_set : List Call → Option Tm
last_set [] = none
last_set (rtc_set_time t ∷ cs) = some t
last_set (c ∷ cs) = last_set cs

hour_of_self : (h : ℕ) → h ≤ 12 → hour_of h ≡ h
unfolding hour_of
hour_of_self h p = ground arith

quarter_of-minute_of : (q : ℕ) → q < 8 → (quarter_of (minute_of q) ≡ q) × (minute_of q < 60)
unfolding quarter_of minute_of
quarter_of-minute_of q p = ground arith

-- What `_time_set` stores in the RTC has an hour below 24, a minute below 60 and the second 0, and
-- `_time_get` reads it back as the same hour and half quarter, for an hour of at most 12 and a half
-- quarter below 8.
pub time_get-time_set :
    (w : Wand)
    → w.cur_hour ≤ 12
    → w.cur_quarter < 8
    → let t = (time_set w).time in
      (last_set (time_set w).calls ≡ some t)
      × (t.tm_hour < 24)
      × (t.tm_min < 60)
      × (t.tm_sec ≡ 0)
      × ((time_get t w).cur_hour ≡ w.cur_hour)
      × ((time_get t w).cur_quarter ≡ w.cur_quarter)
time_get-time_set w hh hq =
    let (quarter, little) = quarter_of-minute_of w.cur_quarter hq in
    (refl, omega arith, little, refl, hour_of_self w.cur_hour hh, quarter)

-- A press and a release of a button in "set time mode".
abbrev pub press_time : Wand → Wand
press_time w = do_increment (increment w)

abbrev pub press_light : Wand → Wand
press_light w = do_decrement (decrement w)

pub presses : ℕ → Wand → Wand
presses zero w = w
presses (suc n) w = presses n (press_time w)

press_hour :
    (w : Wand)
    → w.set_time_mode ≡ mode_hours
    → ((press_time w).set_time_mode ≡ mode_hours)
      × ((press_time w).cur_hour ≡ (w.cur_hour + 1) % 12)
unfolding increment do_increment
press_hour w m = ground arith

-- While the hours are set, `n` presses of the time button add `n` hours on a dial of twelve.
pub presses_add :
    (n : ℕ) (w : Wand)
    → w.set_time_mode ≡ mode_hours
    → w.cur_hour < 12
    → (presses n w).cur_hour ≡ (w.cur_hour + n) % 12
unfolding presses
presses_add zero w m h = omega arith
presses_add (suc n) w m h =
    let (still, hour) = press_hour w m in
    presses_add n (press_time w) still (omega arith) ∙ omega arith

-- The two buttons undo one another: after a press of each, in either order, the hour (below 12)
-- and the half quarter (below 8) are as before, in each of the two parts of "set time mode".
pub press_light-press_time :
    (w : Wand)
    → w.set_time_mode ≢ mode_off
    → w.cur_hour < 12
    → w.cur_quarter < 8
    → ((press_light (press_time w)).cur_hour ≡ w.cur_hour)
      × ((press_light (press_time w)).cur_quarter ≡ w.cur_quarter)
      × ((press_time (press_light w)).cur_hour ≡ w.cur_hour)
      × ((press_time (press_light w)).cur_quarter ≡ w.cur_quarter)
unfolding increment do_increment decrement do_decrement
press_light-press_time w m hh hq = ground arith

-- The timer fires on channel 1 while the time button is held.
abbrev pub hold_time : Inputs → Wand → Wand
hold_time inp w = timeout 1 inp (increment w)

-- From normal mode the alarm of a long push of the time button starts setting the hours. Holding
-- the button again goes on to the quarters, and once more stores the time in the RTC and returns
-- to normal mode; the LEDs blink until then, and the hour and half quarter stay what they were.
pub set_time_cycle :
    (i j k : Inputs) (w : Wand)
    → w.set_time_mode ≡ mode_off
    → w.blinking ≡ false
    → let w1 = timeout 1 i w in
      let w2 = hold_time j w1 in
      let w3 = hold_time k w2 in
      ((w1.set_time_mode ≡ mode_hours) × (w1.blinking ≡ true))
      × ((w2.set_time_mode ≡ mode_quarters) × (w2.blinking ≡ true))
      × ((w3.set_time_mode ≡ mode_off) × (w3.blinking ≡ false))
      × (last_set w3.calls
          ≡ some (record w.time {
            tm_hour = w.cur_hour;
            tm_min = minute_of w.cur_quarter;
            tm_sec = 0;
          }))
      × ((w1.cur_hour ≡ w.cur_hour) × (w1.cur_quarter ≡ w.cur_quarter))
      × ((w2.cur_hour ≡ w.cur_hour) × (w2.cur_quarter ≡ w.cur_quarter))
      × ((w3.cur_hour ≡ w.cur_hour) × (w3.cur_quarter ≡ w.cur_quarter))
unfolding timeout increment
set_time_cycle i j k w m b = ground arith
