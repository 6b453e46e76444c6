-- ===== src/TimeRx/Fragments.antt =====
-- The fragments hold the datagram, stay inside their frames, and name their places.
use Prim.Native.Nat.{min}
use riot_playground.Common.{
  take-drop, length-take, length-drop, ℕ, zero, suc, ◌+◌, ◌-◌, ◌*◌, ◌/◌, ◌%◌, ◌≤◌, ◌<◌, ◌≡◌, refl,
  sym, ◌∙◌, ap, List, [], ◌∷◌, ◌++◌, false, ltb, ◌==◌, arith, length, take, drop, u8, All,
  Bool-cases, inl, inr,
}
use mathlib.Core.List.{append-nil}
use riot_playground.TimeRx.{
  Frag, frag_len, fill, frames, prepare_frags, prepare_sixlowpan, fill_single,
}

empty_of : (xs : List ℕ) → length xs ≡ 0 → xs ≡ []
empty_of [] h = refl
empty_of (x ∷ xs) h = absurd (omega arith)

-- The bytes of all frames, in order.
abbrev pub joined : List Frag → List ℕ
joined [] = []
joined (f ∷ fs) = f.body ++ joined fs

-- Each frame that holds anything starts at its offset, where `pos` is the place of the first.
abbrev pub Placed : ℕ → List Frag → Type 0
Placed pos [] = Unit
Placed pos (f ∷ fs) = ((0 < length f.body) → 8 * f.offset ≡ pos) × Placed (pos + length f.body) fs

abbrev pub FitsFrame : Frag → Type 0
FitsFrame f = frag_len f ≤ 125

-- What holds of the frames that are filled with `bytes` from place `pos` on.
pub record Filled (bytes : List ℕ) (pos : ℕ) (fs : List Frag) : Type 0 where
  pub whole : joined fs ≡ bytes
  pub inside : All FitsFrame fs
  pub placed : Placed pos fs

-- The frames after the first, each of which holds 96 bytes.
pub fill-prepare_frags :
    (n : ℕ) (bytes : List ℕ) (off pos : ℕ)
    → length bytes ≤ 96 * n
    → off + 96 * n < 2048
    → off % 8 ≡ 0
    → (0 < length bytes → pos ≡ off)
    → Filled bytes pos (fill bytes (prepare_frags n off)).1
unfolding fill prepare_frags
fill-prepare_frags zero bytes off pos h small units at_off = record {
  whole = sym (empty_of bytes (omega arith));
  inside = tt;
  placed = tt;
}
fill-prepare_frags (suc n) bytes off pos h small units at_off =
    let m = min 96 (length bytes) in
    let taken = length-take m bytes (omega arith) in
    let rest = length-drop m bytes in
    let ih =
      fill-prepare_frags n (drop m bytes) (off + 96) (pos + m) (omega (arith, rest)) (omega arith)
        (omega arith) (λ some_left. omega (arith, at_off (omega (arith, rest)), rest)) in
    elim (Bool-cases (length bytes == 0)) [
      | inl e ↦
          let none_left : length bytes ≡ 0 = ground (arith, e) in
          let same_place : pos + m ≡ pos + 0 = omega arith in
          rw e (record {
            whole =
                ih.whole
                ∙ empty_of (drop m bytes) (omega (arith, rest))
                ∙ sym (empty_of bytes none_left);
            inside = (omega arith, ih.inside);
            placed = ((λ some_left. absurd (omega arith)), rw same_place at ih.placed);
          })
      | inr e ↦
          let some_left : 0 < length bytes = ground (arith, e) in
          let unit : 8 * u8 (off / 8) ≡ pos = omega (arith, at_off some_left) in
          rw e (record {
            whole = ap (λ ys. take m bytes ++ ys) ih.whole ∙ take-drop m bytes;
            inside = (omega (arith, taken), ih.inside);
            placed = ((λ some_here. unit), rw taken ih.placed);
          })
    ]

-- The first frame starts at the front, and the others behind the 48 bytes of IPv6 and UDP headers
-- and its data.
abbrev pub AllPlaced : List Frag → Type 0
AllPlaced [] = Unit
AllPlaced (f ∷ fs) = (f.offset ≡ 0) × Placed (48 + length f.body) fs

-- The first frame holds 88 bytes.
fill-first :
    (iphc : ℕ) (bytes : List ℕ)
    → 6 ≤ iphc
    → iphc ≤ 9
    → 0 < length bytes
    → length bytes ≤ 1720
    → let fs =
        (fill bytes
          (record { head = 27 + iphc; offset = 0; body = [] } ∷ prepare_frags 17 136)).1 in
      (joined fs ≡ bytes) × All FitsFrame fs × AllPlaced fs
unfolding fill
fill-first iphc bytes least most some_data fits =
    let m = min 88 (length bytes) in
    let taken = length-take m bytes (omega arith) in
    let rest = length-drop m bytes in
    let room : (125 - (27 + iphc + 0)) / 8 * 8 ≡ 88 = omega arith in
    let used : (length bytes == 0) ≡ false = ground arith in
    let ih =
      fill-prepare_frags 17 (drop m bytes) 136 (48 + m) (omega (arith, rest)) (omega arith)
        (omega arith) (λ some_left. omega (arith, rest)) in
    rw (fill, room, used)
      (
        ap (λ ys. take m bytes ++ ys) ih.whole ∙ take-drop m bytes,
        (omega (arith, taken), ih.inside),
        (refl, rw taken ih.placed),
      )

-- The frames of a payload of 1 to 1232 bytes (EXP_MAX_PAYLOAD) hold its bytes in order, none
-- of them is longer than a frame may be, and the offset in the header of each that holds anything,
-- in units of eight bytes, is the place of its data in the datagram before compression.
pub frames_hold :
    (iphc : ℕ) (bytes : List ℕ)
    → 6 ≤ iphc
    → iphc ≤ 9
    → 0 < length bytes
    → length bytes ≤ 1232
    → let fs = (frames iphc bytes).1 in (joined fs ≡ bytes) × All FitsFrame fs × AllPlaced fs
unfolding frames prepare_sixlowpan fill_single
frames_hold iphc bytes least most some_data fits =
    elim (Bool-cases (ltb (125 - 23 - iphc) (length bytes))) [
      | inl e ↦
          let start : (125 - 23 - 4 - iphc + 48) / 8 * 8 ≡ 136 = omega arith in
          rw (frames, prepare_sixlowpan, e, start)
            (fill-first iphc bytes least most some_data (omega arith))
      | inr e ↦
          rw (frames, prepare_sixlowpan, e) (append-nil bytes, (ground (arith, e), tt), (refl, tt))
    ]
