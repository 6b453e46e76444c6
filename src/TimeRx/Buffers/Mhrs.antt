-- ===== src/TimeRx/Buffers/Mhrs.antt =====
-- The MAC headers in the buffers, and writing behind them.
use riot_playground.Common.{
  ℕ, ◌+◌, ◌/◌, ◌≤◌, ◌≡◌, sym, ap, ◌∙◌, List, [], ◌∷◌, ◌++◌, length, take, drop, write_at, arith,
  length-append, length-take, length-drop, take-drop, write_at-middle, u8,
}
use mathlib.Core.List.{append_assoc}
use riot_playground.TimeRx.Headers.{with_disp}
use riot_playground.TimeRx.Buffers.{Buffer}

-- A buffer of 125 bytes with its MAC header.
pub record HasMhr (mhr : List ℕ) (f : Buffer) : Type 0 where
  pub rest : List ℕ
  pub split : f.bytes ≡ mhr ++ rest
  pub mhr_len : length mhr ≡ 23
  pub size : length f.bytes ≡ 125

abbrev pub HasMhrs : List (List ℕ) → List Buffer → Type 0
HasMhrs [] [] = Unit
HasMhrs (mhr ∷ mhrs) (f ∷ fs) = HasMhr mhr f × HasMhrs mhrs fs
HasMhrs [] (f ∷ fs) = ⊥
HasMhrs (mhr ∷ mhrs) [] = ⊥

-- The two bytes of the dispatch and the size.
abbrev pub disp_of : ℕ → ℕ → List ℕ
disp_of disp size = with_disp disp (u8 (size / 256)) ∷ u8 size ∷ []

-- Writing over the part of `rest` that starts behind `n` of its bytes.
pub write_inside :
    (xs rest ws : List ℕ) (n at : ℕ)
    → at ≡ length xs + n
    → n + length ws ≤ length rest
    → write_at (xs ++ rest) at ws ≡ xs ++ (take n rest ++ (ws ++ drop (length ws) (drop n rest)))
write_inside xs rest ws n at e fits =
    let head = take n rest in
    let over = take (length ws) (drop n rest) in
    let left = drop (length ws) (drop n rest) in
    let whole : xs ++ rest ≡ (xs ++ head) ++ (over ++ left) =
      ap (λ t. xs ++ t)
        (sym (take-drop n rest) ∙ ap (λ t. head ++ t) (sym (take-drop (length ws) (drop n rest))))
      ∙ sym (append_assoc xs head (over ++ left)) in
    ap (λ t. write_at t at ws) whole
    ∙ write_at-middle (xs ++ head) over left ws at
        (omega (arith, length-append xs head, length-take n rest))
        (sym (length-take (length ws) (drop n rest) (omega (arith, length-drop n rest))))
    ∙ append_assoc xs head (ws ++ left)
