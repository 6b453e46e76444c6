-- ===== src/Luke/Display/Colors.antt =====
-- `_init_color_map` of lndw18_luke/display/main.c: the colours of the strip, from red to green.
use riot_playground.Common.{
  ℕ, zero, suc, ◌+◌, ◌*◌, ◌<◌, ◌≡◌, refl, ap, ◌∙◌, List, [], ◌∷◌, get_or, length, arith,
}

pub record Rgb : Type 0 where
  pub r : ℕ
  pub g : ℕ
  pub b : ℕ

-- Green and blue are switched.
abbrev pub switched : Rgb → Rgb
switched c = record { r = c.r; g = c.b; b = c.g }

-- A colour as one number, as `Display` has it.
abbrev pub pack : Rgb → ℕ
pack c = (c.r * 256 + c.g) * 256 + c.b

-- `color i` is the colour that `color_hsv2rgb` gives for the hue `i * (LUKE_HUE_MAX /
-- LUKE_POINTS_MAX)`, with full saturation and value.
module _ (color : ℕ → Rgb) where
  -- The loop for `n` more LEDs, the first of them number `i`.
  unfoldable pub colors_from : ℕ → ℕ → List ℕ
  colors_from zero i = []
  colors_from (suc n) i = pack (switched (color i)) ∷ colors_from n (i + 1)

  unfoldable pub init_color_map : ℕ → List ℕ
  unfolding colors_from
  init_color_map led_cnt = colors_from led_cnt 0

  pub length-colors_from : (n i : ℕ) → length (colors_from n i) ≡ n
  unfolding colors_from
  length-colors_from zero i = refl
  length-colors_from (suc n) i = ap suc (length-colors_from n (i + 1))

  pub get_or-colors_from :
      (n i k : ℕ) → k < n → get_or (colors_from n i) k 0 ≡ pack (switched (color (i + k)))
  unfolding colors_from
  get_or-colors_from zero i k h = absurd (omega arith)
  get_or-colors_from (suc n) i zero h =
      let here : i ≡ i + 0 = omega arith in ap (λ m. pack (switched (color m))) here
  get_or-colors_from (suc n) i (suc k) h =
      let there : i + 1 + k ≡ i + suc k = omega arith in
      get_or-colors_from n (i + 1) k (omega arith) ∙ ap (λ m. pack (switched (color m))) there
