-- ===== src/Wand/Invariant.antt =====
-- What holds of the wand between two interrupts, whatever the edges, alarms, clock and battery.
use riot_playground.Common.{
  ℕ, zero, suc, ◌+◌, ◌/◌, ◌%◌, ◌≤◌, ◌<◌, ◌≡◌, refl, ◌∙◌, List, [], ◌∷◌, leb, Bool, true, false,
  Option, some, arith, ◌==◌, if◌then◌else◌,
}
use riot_playground.Wand.Hardware.{
  Pin, btn_light, btn_time, Edge, Handler, Call, Tm, gpio_set, gpio_toggle,
}
use riot_playground.Wand.Board.{callback_after, callback_from}
use riot_playground.Wand.State.{Wand, SetTimeMode, Inputs}
use riot_playground.Wand.Display.{time_array, show_leds, led_call}
use riot_playground.Wand.Power.{show_bar}
use riot_playground.Wand.Clock.{hour_of, quarter_of}
use riot_playground.Wand.Modes.{in_set_time_mode, timeout, run_handler, main}

-- The callbacks of each mode, for either button.
abbrev pub fits_light : Bool → Handler → Bool
fits_light false Handler.btn_light_push = true
fits_light false Handler.btn_light_release = true
fits_light false Handler.show_power_off = true
fits_light true Handler.decrement = true
fits_light true Handler.do_decrement = true
fits_light _ _ = false

abbrev pub fits_time : Bool → Handler → Bool
fits_time false Handler.btn_time_push = true
fits_time false Handler.btn_time_release = true
fits_time true Handler.increment = true
fits_time true Handler.do_increment = true
fits_time _ _ = false

abbrev pub fits : (Bool → Handler → Bool) → Bool → Option (Edge × Handler) → Bool
fits f setting (some (e, h)) = f setting h
fits f setting Option.none = false

abbrev pub Callbacks : Type 0
Callbacks = List Call → Pin → Option (Edge × Handler)

pub record Inv (callback : Callbacks) (w : Wand) : Type 0 where
  pub hour_ok : w.cur_hour ≤ 12
  pub quarter_ok : w.cur_quarter < 8
  pub light_ok :
      fits fits_light (in_set_time_mode w.set_time_mode) (callback w.calls btn_light) ≡ true
  pub time_ok : fits fits_time (in_set_time_mode w.set_time_mode) (callback w.calls btn_time) ≡ true
  pub blinks_when_set : w.blinking ≡ true → in_set_time_mode w.set_time_mode ≡ true

-- The ranges that `struct tm` documents.
pub record IsClock (t : Tm) : Type 0 where
  pub hour_in_day : t.tm_hour < 24
  pub min_in_hour : t.tm_min < 60

callback-show_leds :
    (f : Pin → Option (Edge × Handler)) (m : SetTimeMode) (g : Pin → Call) (i mask : ℕ)
    (ps : List Pin) (cs : List Call) (q : Pin)
    → ((p : Pin) (h : Option (Edge × Handler)) → callback_after (g p) q h ≡ h)
    → callback_from f (show_leds m g i mask ps cs) q ≡ callback_from f cs q
unfolding show_leds
callback-show_leds f m g i mask [] cs q silent = refl
callback-show_leds f m g i mask (p ∷ ps) cs q silent =
    callback-show_leds f m g (i + 1) (mask / 2) ps
      (if mask % 2 == 1 then led_call m g i p ∷ cs else cs) q silent
    ∙ ground (arith, silent p (callback_from f cs q))

callback-show_bar :
    (f : Pin → Option (Edge × Handler)) (p : ℕ) (bs : List (ℕ × Pin)) (cs : List Call) (q : Pin)
    → callback_from f (show_bar p bs cs) q ≡ callback_from f cs q
unfolding show_bar
callback-show_bar f p [] cs q = refl
callback-show_bar f p ((limit, led) ∷ bs) cs q =
    callback-show_bar f p bs (if leb limit p then gpio_set led ∷ cs else cs) q ∙ ground arith

hour_of_le : (h : ℕ) → h < 24 → hour_of h ≤ 12
unfolding hour_of
hour_of_le h p = ground arith

quarter_of_lt : (m : ℕ) → m < 60 → quarter_of m < 8
unfolding quarter_of
quarter_of_lt m p = ground arith

module _ (f : Pin → Option (Edge × Handler)) where
  callback-show_set :
      (m : SetTimeMode) (mask : ℕ) (cs : List Call) (q : Pin)
      → callback_from f (show_leds m gpio_set 0 mask time_array cs) q ≡ callback_from f cs q
  callback-show_set m mask cs q =
      callback-show_leds f m gpio_set 0 mask time_array cs q (λ p h. refl)

  callback-show_toggle :
      (m : SetTimeMode) (mask : ℕ) (cs : List Call) (q : Pin)
      → callback_from f (show_leds m gpio_toggle 0 mask time_array cs) q ≡ callback_from f cs q
  callback-show_toggle m mask cs q =
      callback-show_leds f m gpio_toggle 0 mask time_array cs q (λ p h. refl)

  pub run_light-Inv :
      (h : Handler) (inp : Inputs) (w : Wand)
      → IsClock inp.rtc
      → fits_light (in_set_time_mode w.set_time_mode) h ≡ true
      → Inv (callback_from f) w
      → Inv (callback_from f) (run_handler h inp w)
  unfolding run_handler
  run_light-Inv Handler.btn_light_push inp w c l v = ground arith
  run_light-Inv Handler.btn_light_release inp w c l v = ground arith
  run_light-Inv Handler.show_power_off inp w c l v = ground arith
  run_light-Inv Handler.decrement inp w c l v = grind (arith, callback-show_set)
  run_light-Inv Handler.do_decrement inp w c l v =
      grind (arith, callback-show_set, callback-show_toggle)
  run_light-Inv Handler.btn_time_push inp w c l v = ground arith
  run_light-Inv Handler.btn_time_release inp w c l v = ground arith
  run_light-Inv Handler.increment inp w c l v = ground arith
  run_light-Inv Handler.do_increment inp w c l v = ground arith

  pub run_time-Inv :
      (h : Handler) (inp : Inputs) (w : Wand)
      → IsClock inp.rtc
      → fits_time (in_set_time_mode w.set_time_mode) h ≡ true
      → Inv (callback_from f) w
      → Inv (callback_from f) (run_handler h inp w)
  unfolding run_handler
  run_time-Inv Handler.btn_time_push inp w c l v = grind (
    arith,
    callback-show_set,
    hour_of_le inp.rtc.tm_hour,
    quarter_of_lt inp.rtc.tm_min,
    c.hour_in_day,
    c.min_in_hour,
  )
  run_time-Inv Handler.btn_time_release inp w c l v = ground arith
  run_time-Inv Handler.increment inp w c l v = grind (arith, callback-show_set)
  run_time-Inv Handler.do_increment inp w c l v =
      grind (arith, callback-show_set, callback-show_toggle)
  run_time-Inv Handler.btn_light_push inp w c l v = ground arith
  run_time-Inv Handler.btn_light_release inp w c l v = ground arith
  run_time-Inv Handler.show_power_off inp w c l v = ground arith
  run_time-Inv Handler.decrement inp w c l v = ground arith
  run_time-Inv Handler.do_decrement inp w c l v = ground arith

  pub timeout-Inv :
      (channel : ℕ) (inp : Inputs) (w : Wand)
      → Inv (callback_from f) w
      → Inv (callback_from f) (timeout channel inp w)
  unfolding timeout
  timeout-Inv zero inp w v = grind (arith, callback-show_toggle, callback-show_bar)
  timeout-Inv (suc zero) inp w v = grind (arith, callback-show_toggle)
  timeout-Inv (suc (suc channel)) inp w v = grind (arith, callback-show_toggle)

  pub main-Inv : Inv (callback_from f) main
  unfolding main
  main-Inv = ground arith
