-- ===== src/Wand/Hardware.antt =====
-- The peripherals that wand/main.c drives: its pins, its interrupt handlers, and the calls that it
-- makes of RIOT's GPIO, timer, RTC and ADC drivers. A call is recorded, not carried out.
use riot_playground.Common.{ℕ, List}

-- The pins of the wiring; their numbers depend on the board.
pub data Pin : Type 0 where
  led_minute_yellow led_minute_green led_minute_blue led_minute_gray : Pin
  led_hour_brown led_hour_purple led_hour_red led_hour_orange : Pin
  led_light btn_time btn_light : Pin

pub data Edge : Type 0 where
  falling rising : Edge

-- The callbacks that the program registers for an edge on a button.
pub data Handler : Type 0 where
  btn_light_push btn_light_release btn_time_push btn_time_release show_power_off : Handler
  decrement do_decrement increment do_increment : Handler

-- `struct tm`: the fields that the program names, and the others, which it only passes on.
pub record Tm : Type 0 where
  pub tm_hour : ℕ
  pub tm_min : ℕ
  pub tm_sec : ℕ
  pub tm_others : List ℕ

pub data Call : Type 0 where
  led0_off rtc_init adc_init : Call
  gpio_init gpio_set gpio_clear gpio_toggle : Pin → Call
  gpio_init_int : Pin → Edge → Handler → Call
  timer_init timer_start timer_stop : ℕ → Call
  timer_clear : ℕ → ℕ → Call
  timer_set : ℕ → ℕ → ℕ → Call
  rtc_set_time : Tm → Call
