-- ===== src/Luke/Display/Strip.antt =====
-- What the strip of LEDs shows.
use riot_playground.Common.{
  ℕ, zero, suc, ◌+◌, ◌/◌, ◌<◌, ◌≡◌, refl, ◌∙◌, List, Bool, arith, ltb, leb, ◌&&◌, if◌then◌else◌,
  length, get_or, replicate, set, length-set, length-replicate, get_or-set_self, get_or-set_ne,
  get_or-replicate,
}
use native.Mathlib.Decide.{ℕ_discrete}
use riot_playground.Luke.Display.{Display, light, display_points}

pub length-light :
    (colors : List ℕ) (n i : ℕ) (leds : List ℕ) → length (light colors n i leds) ≡ length leds
unfolding light
length-light colors zero i leds = refl
length-light colors (suc n) i leds =
    length-light colors n (i + 1) (set leds i (get_or colors i 0))
    ∙ length-set leds i (get_or colors i 0)

-- The loop gives the LEDs from `i` on, `n` of them, their colours, and no other LED.
light_lem :
    (colors : List ℕ) (n i k : ℕ) (leds : List ℕ)
    → k < length leds
    → get_or (light colors n i leds) k 0
      ≡ (if leb i k && ltb k (i + n) then get_or colors k 0 else get_or leds k 0)
unfolding light
light_lem colors zero i k leds h = ground arith
light_lem colors (suc n) i k leds h =
    light_lem colors n (i + 1) k (set leds i (get_or colors i 0)) (rw length-set h)
    ∙ written (ℕ_discrete i k)
  where
    written :
        Dec (i ≡ k)
        → (if leb (i + 1) k && ltb k (i + 1 + n)
            then get_or colors k 0
            else get_or (set leds i (get_or colors i 0)) k 0)
          ≡ (if leb i k && ltb k (i + suc n) then get_or colors k 0 else get_or leds k 0)
    written (yes e) = ground (arith, get_or-set_self leds i (get_or colors i 0) 0 (rw e h))
    written (no ne) = ground (arith, get_or-set_ne leds i k (get_or colors i 0) 0 ne)

leds-display_points :
    (led_cnt : ℕ) (observed : Bool) (d : Display)
    → (display_points led_cnt observed d).leds
      ≡ light d.color_map (d.points / 1) 0 (replicate led_cnt 0)
unfolding display_points
leds-display_points led_cnt observed d = ground arith

-- `_display_points` shows LED `k` in its colour if `k` is
-- below the points, and dark if not, whatever it showed before.
pub display_points_lem :
    (led_cnt : ℕ) (observed : Bool) (d : Display) (k : ℕ)
    → k < led_cnt
    → get_or (display_points led_cnt observed d).leds k 0
      ≡ (if ltb k d.points then get_or d.color_map k 0 else 0)
display_points_lem led_cnt observed d k h = rw (leds-display_points led_cnt observed d) (
    light_lem d.color_map (d.points / 1) 0 k (replicate led_cnt 0) (rw length-replicate h)
    ∙ rw (get_or-replicate {A = ℕ} led_cnt k 0) (ground arith))
