-- ===== src/TimeRx/Lwip.antt =====
-- stack_comparison/time_rx/gnrc/exp.c with MODULE_LWIP: lwIP counts the datagram after compression,
-- so the first fragment holds less, and the offsets are those of the compressed datagram.
use Prim.Native.Nat.{min}
use riot_playground.Common.{
  ℕ, suc, ◌+◌, ◌-◌, ◌*◌, ◌/◌, ◌≤◌, ◌<◌, ◌≡◌, refl, ◌∙◌, ap, List, [], ◌∷◌, ◌++◌, Bool, true, false,
  ltb, ◌==◌, if◌then◌else◌, arith, length, take, drop, take-drop, length-take, length-drop, All,
  Bool-cases, inl, inr,
}
use mathlib.Core.List.{append-nil}
use riot_playground.TimeRx.{
  Frag, frag_len, fill, fill_single, prepare_frags, is_fragmented, whole_units, max_frame_size,
  mhr_len, frag_1_len, max_fragments,
}
use riot_playground.TimeRx.Fragments.{joined, Placed, FitsFrame, fill-prepare_frags}

-- `prepare_sixlowpan`
pub prepare_lwip : ℕ → ℕ → Bool × List Frag
unfolding prepare_frags
prepare_lwip iphc payload_size =
    let fragn_offset = whole_units (max_frame_size - mhr_len - frag_1_len - iphc) in
    if is_fragmented iphc payload_size
    then (
      true,
      record { head = mhr_len + frag_1_len + iphc; offset = 0; body = [] }
          ∷ prepare_frags (max_fragments - 1) fragn_offset,
    )
    else (false, record { head = mhr_len + iphc; offset = 0; body = [] } ∷ [])

-- The loop of `exp_run` over the fragments. Only the first differs.
pub fill_lwip : ℕ → List ℕ → List Frag → ℕ × List Frag
unfolding fill
fill_lwip iphc rest [] = (0, [])
fill_lwip iphc rest (f ∷ fs) =
    let max_len = min (whole_units (max_frame_size - frag_len f) - iphc) (length rest) in
    let (used, others) = fill (drop max_len rest) fs in
    if length rest == 0
    then (used, record f { head = 0; body = [] } ∷ others)
    else (suc used, record f { body = f.body ++ take max_len rest } ∷ others)

unfoldable pub frames_lwip : ℕ → List ℕ → ℕ × List Frag
unfolding prepare_lwip fill_lwip fill_single
frames_lwip iphc bytes =
    let (fragmented, fs) = prepare_lwip iphc (length bytes) in
    if fragmented then fill_lwip iphc bytes fs else fill_single bytes fs

-- The first frame starts at the front, and the others behind the compressed headers and its data.
abbrev pub CompressedPlaced : ℕ → List Frag → Type 0
CompressedPlaced iphc [] = Unit
CompressedPlaced iphc (f ∷ fs) = (f.offset ≡ 0) × Placed (iphc + length f.body) fs

-- The first frame holds 88 bytes with the compressed headers.
fill_lwip-first :
    (iphc : ℕ) (bytes : List ℕ)
    → 6 ≤ iphc
    → iphc ≤ 9
    → 0 < length bytes
    → length bytes ≤ 1711
    → let fs =
        (fill_lwip iphc bytes
          (record { head = 27 + iphc; offset = 0; body = [] } ∷ prepare_frags 17 88)).1 in
      (joined fs ≡ bytes) × All FitsFrame fs × CompressedPlaced iphc fs
unfolding fill_lwip
fill_lwip-first iphc bytes least most some_data fits =
    let m = min (88 - iphc) (length bytes) in
    let taken = length-take m bytes (omega arith) in
    let rest = length-drop m bytes in
    let room : (125 - (27 + iphc + 0)) / 8 * 8 ≡ 88 = omega arith in
    let used : (length bytes == 0) ≡ false = ground arith in
    let ih =
      fill-prepare_frags 17 (drop m bytes) 88 (iphc + m) (omega (arith, rest)) (omega arith)
        (omega arith) (λ some_left. omega (arith, rest)) in
    rw (fill_lwip, room, used)
      (
        ap (λ ys. take m bytes ++ ys) ih.whole ∙ take-drop m bytes,
        (omega (arith, taken), ih.inside),
        (refl, rw taken ih.placed),
      )

-- With lwIP too, the frames of a payload of 1 to 1232 bytes hold its bytes in order, none of them is
-- longer than a frame may be, and the offset of each that holds anything, in units of eight bytes,
-- is the place of its data, here in the datagram after compression.
pub frames_lwip_hold :
    (iphc : ℕ) (bytes : List ℕ)
    → 6 ≤ iphc
    → iphc ≤ 9
    → 0 < length bytes
    → length bytes ≤ 1232
    → let fs = (frames_lwip iphc bytes).1 in
      (joined fs ≡ bytes) × All FitsFrame fs × CompressedPlaced iphc fs
unfolding frames_lwip prepare_lwip fill_single
frames_lwip_hold iphc bytes least most some_data fits =
    elim (Bool-cases (ltb (125 - 23 - iphc) (length bytes))) [
      | inl e ↦
          let start : (125 - 23 - 4 - iphc) / 8 * 8 ≡ 88 = omega arith in
          rw (frames_lwip, prepare_lwip, e, start)
            (fill_lwip-first iphc bytes least most some_data (omega arith))
      | inr e ↦
          rw (frames_lwip, prepare_lwip, e) (append-nil bytes, (ground (arith, e), tt), (refl, tt))
    ]
