-- ===== src/Wand/Levels.antt =====
-- What `_show_time` does to the levels of the time LEDs.
use riot_playground.Common.{
  ℕ, zero, suc, ◌+◌, ◌/◌, ◌%◌, ◌<◌, ◌≡◌, refl, ◌∙◌, List, [], ◌∷◌, Bool, true, false, not, ◌&&◌,
  ◌||◌, arith, ◌==◌, if◌then◌else◌, get_or, length, and_parts, not-true, Bool-cases, inl, inr,
}
use native.Mathlib.Nat.{add-zero, zero-add}
use riot_playground.Wand.Hardware.{Pin, led_light, Call, gpio_set, gpio_toggle}
use riot_playground.Wand.Board.{pin_id, same, level_after, level_from}
use riot_playground.Wand.State.{Wand, SetTimeMode}
use riot_playground.Wand.Display.{
  time_array, show_leds, led_call, is_current, turn_off_time_display,
}
use riot_playground.Wand.Encode.{bit}

abbrev pub time_led : ℕ → Pin
time_led k = get_or time_array k led_light

abbrev lacks : List Pin → Pin → Bool
lacks [] q = true
lacks (p ∷ ps) q = not (same p q) && lacks ps q

abbrev distinct : List Pin → Bool
distinct [] = true
distinct (p ∷ ps) = lacks ps p && distinct ps

same_comm : (p q : Pin) → same p q ≡ same q p
same_comm p q = number_comm (pin_id p) (pin_id q)
  where
    number_comm : (a b : ℕ) → (a == b) ≡ (b == a)
    number_comm a b = ground arith

same-get_or :
    (ps : List Pin) (p : Pin) (k : ℕ)
    → k < length ps
    → lacks ps p ≡ true
    → same p (get_or ps k led_light) ≡ false
same-get_or [] p k h l = absurd (omega arith)
same-get_or (x ∷ ps) p zero h l = same_comm p x ∙ not-true _ (and_parts _ _ l).0
same-get_or (x ∷ ps) p (suc k) h l = same-get_or ps p k (omega arith) (and_parts _ _ l).1

-- A call that writes no level but its own pin's.
abbrev IsLocal : Bool → (Pin → Call) → Type 0
IsLocal r g = (p q : Pin) (v : Bool) → same p q ≡ false → level_after r (g p) q v ≡ v

module _ (r : Bool) (l : Pin → Bool) (m : SetTimeMode) (g : Pin → Call)
    (g_local : IsLocal r g) where
  led_call-IsLocal : (i : ℕ) → IsLocal r (led_call m g i)
  led_call-IsLocal i p q v h = elim (Bool-cases (is_current m i)) [
    | inl e ↦ rw e (g_local p q v h)
    | inr e ↦ rw (e, h)
  ]

  level_if :
      (b : Bool) (c : Call) (cs : List Call) (q : Pin)
      → level_from r l (if b then c ∷ cs else cs) q
        ≡ (if b then level_after r c q (level_from r l cs q) else level_from r l cs q)
  level_if true c cs q = refl
  level_if false c cs q = refl

  level_if_ne :
      (b : Bool) (i : ℕ) (p q : Pin) (cs : List Call)
      → same p q ≡ false
      → level_from r l (if b then led_call m g i p ∷ cs else cs) q ≡ level_from r l cs q
  level_if_ne true i p q cs h = led_call-IsLocal i p q (level_from r l cs q) h
  level_if_ne false i p q cs h = refl

  level-show_leds_ne :
      (i mask : ℕ) (ps : List Pin) (cs : List Call) (q : Pin)
      → lacks ps q ≡ true
      → level_from r l (show_leds m g i mask ps cs) q ≡ level_from r l cs q
  unfolding show_leds
  level-show_leds_ne i mask [] cs q h = refl
  level-show_leds_ne i mask (p ∷ ps) cs q h =
      level-show_leds_ne (i + 1) (mask / 2) ps (if mask % 2 == 1 then led_call m g i p ∷ cs else cs)
        q (and_parts _ _ h).1
      ∙ level_if_ne (mask % 2 == 1) i p q cs (not-true _ (and_parts _ _ h).0)

  -- The loop makes at most one call for LED `k`, namely if bit `k` of the mask is set.
  level-show_leds :
      (i mask : ℕ) (ps : List Pin) (cs : List Call) (k : ℕ)
      → distinct ps ≡ true
      → k < length ps
      → let q = get_or ps k led_light in
        level_from r l (show_leds m g i mask ps cs) q ≡ (
          if bit mask k
          then level_after r (led_call m g (i + k) q) q (level_from r l cs q)
          else level_from r l cs q)
  unfolding show_leds
  level-show_leds i mask [] cs k d h = absurd (omega arith)
  level-show_leds i mask (p ∷ ps) cs zero d h =
      level-show_leds_ne (i + 1) (mask / 2) ps (if mask % 2 == 1 then led_call m g i p ∷ cs else cs)
        p (and_parts _ _ d).0
      ∙ level_if (mask % 2 == 1) (led_call m g i p) cs p
      ∙ rw (add-zero i)
  level-show_leds i mask (p ∷ ps) cs (suc k) d h =
      let q = get_or ps k led_light in
      let apart = same-get_or ps p k (omega arith) (and_parts _ _ d).0 in
      let shift : i + 1 + k ≡ i + suc k = omega arith in
      level-show_leds (i + 1) (mask / 2) ps (if mask % 2 == 1 then led_call m g i p ∷ cs else cs) k
        (and_parts _ _ d).1 (omega arith)
      ∙ rw (level_if_ne (mask % 2 == 1) i p q cs apart, shift)

pub gpio_set-IsLocal : (r : Bool) → IsLocal r gpio_set
gpio_set-IsLocal r p q v h = rw h

pub gpio_toggle-IsLocal : (r : Bool) → IsLocal r gpio_toggle
gpio_toggle-IsLocal r p q v h = rw h

same_refl : (p : Pin) → same p p ≡ true
same_refl p = ground arith

set_cases :
    (r b c : Bool) (q : Pin) (v : Bool)
    → (if b then level_after r (if c then gpio_set q else gpio_set q) q v else v) ≡ (b || v)
set_cases r true true q v = rw (same_refl q)
set_cases r true false q v = rw (same_refl q)
set_cases r false c q v = refl

toggle_cases :
    (r b c : Bool) (q : Pin) (v : Bool)
    → (if b then level_after r (if c then gpio_toggle q else gpio_set q) q v else v)
      ≡ (if b && c then not v else b || v)
toggle_cases r true true q v = rw (same_refl q)
toggle_cases r true false q v = rw (same_refl q)
toggle_cases r false c q v = refl

module _ (r : Bool) (l : Pin → Bool) (m : SetTimeMode) (mask k : ℕ) (cs : List Call)
    (h : k < 8) where
  -- Shown statically, LED `k` is on if bit `k` of the mask is set, and else as it was.
  pub level-show_set :
      level_from r l (show_leds m gpio_set 0 mask time_array cs) (time_led k)
      ≡ (bit mask k || level_from r l cs (time_led k))
  level-show_set =
      level-show_leds r l m gpio_set (gpio_set-IsLocal r) 0 mask time_array cs k refl h
      ∙ rw (zero-add k)
          (set_cases r (bit mask k) (is_current m k) (time_led k) (level_from r l cs (time_led k)))

  pub level-show_toggle :
      level_from r l (show_leds m gpio_toggle 0 mask time_array cs) (time_led k) ≡ (
        if bit mask k && is_current m k
        then not (level_from r l cs (time_led k))
        else bit mask k || level_from r l cs (time_led k))
  level-show_toggle =
      level-show_leds r l m gpio_toggle (gpio_toggle-IsLocal r) 0 mask time_array cs k refl h
      ∙ rw (zero-add k) (
          toggle_cases r (bit mask k) (is_current m k) (time_led k)
            (level_from r l cs (time_led k)))

-- `_turn_off_time_display` leaves every time LED dark.
pub level-turn_off :
    (r : Bool) (l : Pin → Bool) (w : Wand) (k : ℕ)
    → k < 8
    → level_from r l (turn_off_time_display w).calls (time_led k) ≡ false
level-turn_off r l w zero h = refl
level-turn_off r l w (suc zero) h = refl
level-turn_off r l w (suc (suc zero)) h = refl
level-turn_off r l w (suc (suc (suc zero))) h = refl
level-turn_off r l w (suc (suc (suc (suc zero)))) h = refl
level-turn_off r l w (suc (suc (suc (suc (suc zero))))) h = refl
level-turn_off r l w (suc (suc (suc (suc (suc (suc zero)))))) h = refl
level-turn_off r l w (suc (suc (suc (suc (suc (suc (suc zero))))))) h = refl
level-turn_off r l w (suc (suc (suc (suc (suc (suc (suc (suc k)))))))) h = absurd (omega arith)

-- Shown statically after that, LED `k` has the level of bit `k` of the mask.
pub level-show_from_dark :
    (r : Bool) (l : Pin → Bool) (m : SetTimeMode) (mask : ℕ) (w : Wand) (k : ℕ)
    → k < 8
    → level_from r l
        (show_leds m gpio_set 0 mask time_array (turn_off_time_display w).calls)
        (time_led k)
      ≡ bit mask k
level-show_from_dark r l m mask w k h =
    level-show_set r l m mask k (turn_off_time_display w).calls h
    ∙ rw (level-turn_off r l w k h) (or_false (bit mask k))
  where
    or_false : (b : Bool) → (b || false) ≡ b
    or_false b = ground arith
