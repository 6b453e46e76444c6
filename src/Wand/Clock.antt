-- ===== src/Wand/Clock.antt =====
-- The clock of wand/main.c: `_time_get` and `_time_set`.
use riot_playground.Common.{ℕ, ◌+◌, ◌-◌, ◌*◌, ◌/◌, ◌%◌, ltb, ◌==◌, if◌then◌else◌, u8}
use riot_playground.Wand.Hardware.{Tm, rtc_set_time}
use riot_playground.Wand.State.{Wand, emit}
use riot_playground.Wand.Display.{hour_max, quarter_max}

-- The `uint8_t` that `_time_get` makes of the hour and of the minute.
unfoldable pub hour_of : ℕ → ℕ
hour_of h = if ltb hour_max h then u8 (h - hour_max) else u8 h

unfoldable pub quarter_of : ℕ → ℕ
quarter_of m = u8 (m * 10 / (600 / quarter_max))

abbrev pub time_get : Tm → Wand → Wand
time_get rtc w = record w {
  time = rtc;
  cur_hour = hour_of rtc.tm_hour;
  cur_quarter = quarter_of rtc.tm_min;
}

-- The minute at which the (half) quarter `q` begins, rounded up.
unfoldable pub minute_of : ℕ → ℕ
minute_of q = let m = q * (600 / quarter_max) / 10 in if q % 2 == 0 then m else m + 1

abbrev pub time_set : Wand → Wand
time_set w =
    let t = record w.time { tm_hour = w.cur_hour; tm_min = minute_of w.cur_quarter; tm_sec = 0 } in
    emit (rtc_set_time t) (record w { time = t })
