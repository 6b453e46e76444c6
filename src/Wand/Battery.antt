-- ===== src/Wand/Battery.antt =====
-- The power bar against the battery's voltage.
use riot_playground.Common.{
  ℕ, zero, suc, ◌+◌, ◌-◌, ◌*◌, ◌/◌, ◌<◌, ◌≡◌, refl, ◌∙◌, List, [], ◌∷◌, Bool, true, false, ◌&&◌,
  ◌||◌, arith, leb, if◌then◌else◌, get_or,
}
use riot_playground.Common.Int.{ℤ, pos, negsuc}
use riot_playground.Wand.Hardware.{Pin, led_light, Call, gpio_set}
use riot_playground.Wand.Board.{Board, same, level_from, level_from_lem}
use riot_playground.Wand.State.{Wand, Inputs}
use riot_playground.Wand.Power.{battery_voltage, permillage, bar, show_bar}
use riot_playground.Wand.Modes.{show_power}

-- The LED that stands for the `k`-th eighth of the battery's charge.
abbrev pub bar_pin : ℕ → Pin
bar_pin k = (get_or bar k (0, led_light)).1

-- Whether the bar turns the LED `q` on.
abbrev turns_on : ℕ → List (ℕ × Pin) → Pin → Bool
turns_on p [] q = false
turns_on p ((limit, led) ∷ bs) q = (same led q && leb limit p) || turns_on p bs q

module _ (r : Bool) (l : Pin → Bool) where
  level_if_set :
      (b : Bool) (led q : Pin) (cs : List Call) (rest : Bool)
      → (rest || level_from r l (if b then gpio_set led ∷ cs else cs) q)
        ≡ (((same led q && b) || rest) || level_from r l cs q)
  level_if_set true led q cs rest = ground arith
  level_if_set false led q cs rest = ground arith

  pub level-show_bar :
      (p : ℕ) (bs : List (ℕ × Pin)) (cs : List Call) (q : Pin)
      → level_from r l (show_bar p bs cs) q ≡ (turns_on p bs q || level_from r l cs q)
  unfolding show_bar
  level-show_bar p [] cs q = refl
  level-show_bar p ((limit, led) ∷ bs) cs q =
      level-show_bar p bs (if leb limit p then gpio_set led ∷ cs else cs) q
      ∙ level_if_set (leb limit p) led q cs (turns_on p bs q)

-- Passing a limit of the bar, in volts of the scale between the least and the greatest voltage.
turns_on_lem :
    (v k : ℕ)
    → k < 8
    → turns_on (permillage v) bar (bar_pin k) ≡ leb (1025 * (k + 1)) (8 * (v - 3276))
unfolding permillage
turns_on_lem v zero h = ground arith
turns_on_lem v (suc zero) h = ground arith
turns_on_lem v (suc (suc zero)) h = ground arith
turns_on_lem v (suc (suc (suc zero))) h = ground arith
turns_on_lem v (suc (suc (suc (suc zero)))) h = ground arith
turns_on_lem v (suc (suc (suc (suc (suc zero))))) h = ground arith
turns_on_lem v (suc (suc (suc (suc (suc (suc zero)))))) h = ground arith
turns_on_lem v (suc (suc (suc (suc (suc (suc (suc zero))))))) h = ground arith
turns_on_lem v (suc (suc (suc (suc (suc (suc (suc (suc k)))))))) h = absurd (omega arith)

-- Whether a sample of the ADC shows a charge of `k + 1` eighths or more of the way from VOLTAGE_MIN
-- (3276) to VOLTAGE_MAX (4301, 1025 more). One that failed, which is negative, shows them all.
abbrev pub shows_eighth : ℤ → ℕ → Bool
shows_eighth (pos n) k = leb (1025 * (k + 1)) (8 * (n * 66 / 10 - 3276))
shows_eighth (negsuc n) k = true

passed_eighth :
    (adc : ℤ) (k : ℕ)
    → k < 8
    → leb (1025 * (k + 1)) (8 * (battery_voltage adc - 3276)) ≡ shows_eighth adc k
passed_eighth (pos n) k h = refl
passed_eighth (negsuc n) k h = ground arith

-- The power bar turns LED `k` on exactly if the sample of the ADC, which is taken times 6.6, has
-- passed `k + 1` eighths of the way from VOLTAGE_MIN (3276) to VOLTAGE_MAX (4301, 1025 more), and
-- never turns an LED off. A failed sample turns every LED of the bar on.
pub show_power_lem :
    (B : Board) (inp : Inputs) (w : Wand) (k : ℕ)
    → k < 8
    → B.level (show_power inp w).calls (bar_pin k)
      ≡ (shows_eighth inp.adc k || B.level w.calls (bar_pin k))
unfolding show_power
show_power_lem B inp w k h = rw (level_from_lem B) (
    level-show_bar B.initial (B.level []) (permillage (battery_voltage inp.adc)) bar _ (bar_pin k)
    ∙ rw (turns_on_lem (battery_voltage inp.adc) k h ∙ passed_eighth inp.adc k h))
