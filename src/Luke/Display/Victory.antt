-- ===== src/Luke/Display/Victory.antt =====
-- The victory: five increments past the end of the strip.
use riot_playground.Common.{
  ℕ, zero, suc, ◌+◌, ◌^◌, ◌≤◌, ◌<◌, ◌≡◌, ◌∙◌, sym, refl, ◌-◌, List, [], ◌∷◌, ◌++◌, true, false,
  replicate, arith, ap, leb, if◌then◌else◌, Bool, All, length,
}
use native.Mathlib.Decide.{dec_lt}
use riot_playground.Luke.Display.{
  Display, Output, notify_points, notify_difficulty, post_points, increment_points, round,
}

-- An increment and the round of the main loop after it: what is gained, and whether the points are
-- observed at the increment, and the points and the difficulty in the round.
pub record Match : Type 0 where
  pub gained : ℕ
  pub gain_observed : Bool
  pub points_observed : Bool
  pub difficulty_observed : Bool

-- One after the other: points arrive, and then the main loop runs once.
unfoldable pub matches_of : ℕ → List Match → Display → Display
matches_of led_cnt [] d = d
matches_of led_cnt (m ∷ ms) d =
    let gained = increment_points led_cnt m.gain_observed m.gained d in
    matches_of led_cnt ms (round led_cnt m.points_observed m.difficulty_observed gained).1

-- A gain that fills a strip which lacks two points, and no overflow of an `int`.
abbrev pub Fills : Match → Type 0
Fills m = (3 ≤ m.gained) × (m.gained < 2 ^ 15)

pub record NearTop (led_cnt v : ℕ) (d : Display) : Type 0 where
  pub near : led_cnt ≤ d.points + 2
  pub on_strip : d.points ≤ led_cnt
  pub victories : d.in_victory_cond ≡ v

full_after_increment :
    (led_cnt p v : ℕ) (observed : Bool) (d : Display)
    → led_cnt + p < 65536
    → 3 ≤ p
    → v + 1 < 256
    → NearTop led_cnt v d
    → let d' = increment_points led_cnt observed p d in
      (d'.points ≡ led_cnt) × (d'.in_victory_cond ≡ v + 1)
unfolding increment_points
full_after_increment led_cnt p v observed d h1 h2 h3 n = ground arith

near_after_round :
    (led_cnt v : ℕ) (points_observed difficulty_observed : Bool) (d : Display)
    → 5 ≤ led_cnt
    → led_cnt < 256
    → d.points ≡ led_cnt
    → d.in_victory_cond ≡ v
    → NearTop led_cnt v (round led_cnt points_observed difficulty_observed d).1
unfolding round
near_after_round led_cnt v points_observed difficulty_observed d h h' e e' = ground arith

-- The numbers that went to the target, the newest first.
abbrev pub posts_of : List Output → List ℕ
posts_of [] = []
posts_of (notify_points n ∷ outs) = posts_of outs
posts_of (notify_difficulty n ∷ outs) = posts_of outs
posts_of (post_points n ∷ outs) = n ∷ posts_of outs

posts-increment :
    (led_cnt p : ℕ) (observed : Bool) (d : Display)
    → posts_of (increment_points led_cnt observed p d).outputs ≡ posts_of d.outputs
unfolding increment_points
posts-increment led_cnt p observed d = ground arith

posts-round :
    (led_cnt : ℕ) (points_observed difficulty_observed : Bool) (d : Display)
    → posts_of (round led_cnt points_observed difficulty_observed d).1.outputs
      ≡ (if leb 5 d.in_victory_cond then d.points ∷ posts_of d.outputs else posts_of d.outputs)
unfolding round
posts-round led_cnt points_observed difficulty_observed d = ground arith

replicate-last : (k n : ℕ) (ns : List ℕ) → replicate k n ++ (n ∷ ns) ≡ replicate (suc k) n ++ ns
replicate-last zero n ns = refl
replicate-last (suc k) n ns = ap (λ ms. n ∷ ms) (replicate-last k n ns)

posts-match :
    (led_cnt v : ℕ) (m : Match) (d : Display)
    → led_cnt < 256
    → Fills m
    → v + 1 < 256
    → NearTop led_cnt v d
    → let d' = matches_of led_cnt (m ∷ []) d in
      posts_of d'.outputs
      ≡ (if leb 5 (v + 1) then led_cnt ∷ posts_of d.outputs else posts_of d.outputs)
unfolding matches_of
posts-match led_cnt v m d h1 (h2, h3) h4 near =
    let d1 = increment_points led_cnt m.gain_observed m.gained d in
    let (full, counted) =
      full_after_increment led_cnt m.gained v m.gain_observed d (omega arith) h2 h4 near in
    posts-round led_cnt m.points_observed m.difficulty_observed d1
    ∙ ap (λ w. if leb 5 w then d1.points ∷ posts_of d1.outputs else posts_of d1.outputs) counted
    ∙ ap (λ n. if leb 5 (v + 1) then n ∷ posts_of d1.outputs else posts_of d1.outputs) full
    ∙ ap (λ ps. if leb 5 (v + 1) then led_cnt ∷ ps else ps)
        (posts-increment led_cnt m.gained m.gain_observed d)

-- Every increment from the fifth on makes a post of a full strip.
pub posts-matches :
    (led_cnt v : ℕ) (ms : List Match) (d : Display)
    → 5 ≤ led_cnt
    → led_cnt < 256
    → All Fills ms
    → v + length ms < 256
    → NearTop led_cnt v d
    → posts_of (matches_of led_cnt ms d).outputs
      ≡ replicate ((v + length ms - 4) - (v - 4)) led_cnt ++ posts_of d.outputs
unfolding matches_of
posts-matches led_cnt v [] d h0 h1 h2 h4 near =
    let none_more : (v + 0 - 4) - (v - 4) ≡ 0 = omega arith in rw none_more refl
posts-matches led_cnt v (m ∷ ms) d h0 h1 (fills, h2) h4 near =
    let n = length ms in
    let d1 = increment_points led_cnt m.gain_observed m.gained d in
    let (full, counted) =
      full_after_increment led_cnt m.gained v m.gain_observed d (omega (arith, fills)) (fills.0)
        (omega arith) near in
    let near' =
      near_after_round led_cnt (v + 1) m.points_observed m.difficulty_observed d1 h0 h1 full
        counted in
    let one = posts-match led_cnt v m d h1 fills (omega arith) near in
    let ih =
      posts-matches led_cnt (v + 1) ms (round led_cnt m.points_observed m.difficulty_observed d1).1
        h0 h1 h2 (omega arith) near' in
    elim (dec_lt 3 v) [
      | yes won ↦
          let win : leb 5 (v + 1) ≡ true = ground arith in
          let more : (v + suc n - 4) - (v - 4) ≡ suc ((v + 1 + n - 4) - (v + 1 - 4)) =
            omega arith in
          ih
          ∙ ap (λ ps. replicate ((v + 1 + n - 4) - (v + 1 - 4)) led_cnt ++ ps) (one ∙ rw win refl)
          ∙ replicate-last ((v + 1 + n - 4) - (v + 1 - 4)) led_cnt (posts_of d.outputs)
          ∙ sym (ap (λ k. replicate k led_cnt ++ posts_of d.outputs) more)
      | no lost ↦
          let win : leb 5 (v + 1) ≡ false = ground arith in
          let same : (v + suc n - 4) - (v - 4) ≡ (v + 1 + n - 4) - (v + 1 - 4) = omega arith in
          ih
          ∙ ap (λ ps. replicate ((v + 1 + n - 4) - (v + 1 - 4)) led_cnt ++ ps) (one ∙ rw win refl)
          ∙ sym (ap (λ k. replicate k led_cnt ++ posts_of d.outputs) same)
    ]
