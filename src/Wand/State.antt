-- ===== src/Wand/State.antt =====
-- The static variables of wand/main.c, with the driver calls made so far, the latest first.
use riot_playground.Common.{ℕ, List, ◌∷◌, Bool}
use riot_playground.Common.Int.{ℤ}
use riot_playground.Wand.Hardware.{Call, Tm}

pub data SetTimeMode : Type 0 where
  mode_off mode_quarters mode_hours : SetTimeMode

pub record Wand : Type 0 where
  pub lights_on : Bool
  pub blinking : Bool
  pub set_time_mode : SetTimeMode
  pub time : Tm
  pub cur_hour : ℕ
  pub cur_quarter : ℕ
  pub calls : List Call

-- What `rtc_get_time` and `adc_sample` return while a handler runs.
pub record Inputs : Type 0 where
  pub rtc : Tm
  pub adc : ℤ

abbrev pub emit : Call → Wand → Wand
emit c w = record w { calls = c ∷ w.calls }

abbrev pub set_lights_on : Bool → Wand → Wand
set_lights_on b w = record w { lights_on = b }

abbrev pub set_blinking : Bool → Wand → Wand
set_blinking b w = record w { blinking = b }

abbrev pub set_mode : SetTimeMode → Wand → Wand
set_mode m w = record w { set_time_mode = m }

abbrev pub set_hour : ℕ → Wand → Wand
set_hour h w = record w { cur_hour = h }

abbrev pub set_quarter : ℕ → Wand → Wand
set_quarter q w = record w { cur_quarter = q }
