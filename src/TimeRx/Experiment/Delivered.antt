-- ===== src/TimeRx/Experiment/Delivered.antt =====
-- What a run hands over is its whole datagram.
use Prim.Native.Nat.{min}
use riot_playground.Common.{
  ℕ, zero, suc, ◌+◌, ◌-◌, ◌*◌, ◌/◌, ◌≤◌, ◌<◌, ◌≡◌, refl, ap, ◌∙◌, List, [], ◌∷◌, ◌++◌, true, ◌==◌,
  u8, length, replicate, take, drop, arith, length-replicate, All, Bool-cases, inl, inr,
  length-drop,
}
use riot_playground.TimeRx.{
  Frag, frag_len, fill, fill_single, frames, prepare_frags, prepare_sixlowpan, reset_frag_buf,
  is_fragmented,
}
use riot_playground.TimeRx.Fragments.{joined, Placed, FitsFrame, AllPlaced, frames_hold}
use riot_playground.TimeRx.Reset.{reset_frag_buf-frames}
use riot_playground.TimeRx.Experiment.{fill_frames}

-- The frames that are not used hold nothing.
pub fill-empty :
    (bytes : List ℕ) (fs : List Frag)
    → length bytes ≡ 0
    → ((fill bytes fs).0 ≡ 0) × (joined (fill bytes fs).1 ≡ [])
unfolding fill
fill-empty bytes [] h = (refl, refl)
fill-empty bytes (f ∷ fs) h =
    let m = min ((125 - frag_len f) / 8 * 8) (length bytes) in
    let nothing : (length bytes == 0) ≡ true = ground arith in
    rw nothing (fill-empty (drop m bytes) fs (omega (arith, length-drop m bytes)))

joined-used :
    (bytes : List ℕ) (fs : List Frag)
    → joined (take (fill bytes fs).0 (fill bytes fs).1) ≡ joined (fill bytes fs).1
unfolding fill
joined-used bytes [] = refl
joined-used bytes (f ∷ fs) =
    let m = min ((125 - frag_len f) / 8 * 8) (length bytes) in
    elim (Bool-cases (length bytes == 0)) [
      | inl e ↦
          let none_left : length (drop m bytes) ≡ 0 = ground (arith, length-drop m bytes, e) in
          let (used, nothing) = fill-empty (drop m bytes) fs none_left in rw (e, used, nothing) refl
      | inr e ↦ rw e (ap (λ bs. f.body ++ take m bytes ++ bs) (joined-used (drop m bytes) fs))
    ]

length-fill : (bytes : List ℕ) (fs : List Frag) → length (fill bytes fs).1 ≡ length fs
unfolding fill
length-fill bytes [] = refl
length-fill bytes (f ∷ fs) =
    let m = min ((125 - frag_len f) / 8 * 8) (length bytes) in
    elim (Bool-cases (length bytes == 0)) [
      | inl e ↦ rw e (ap suc (length-fill (drop m bytes) fs))
      | inr e ↦ rw e (ap suc (length-fill (drop m bytes) fs))
    ]

length-prepare_frags : (n off : ℕ) → length (prepare_frags n off) ≡ n
unfolding prepare_frags
length-prepare_frags zero off = refl
length-prepare_frags (suc n) off = ap suc (length-prepare_frags n (off + 96))

length-take_le : (n : ℕ) (fs : List Frag) → length (take n fs) ≤ length fs
length-take_le zero fs = omega arith
length-take_le (suc n) [] = omega arith
length-take_le (suc n) (f ∷ fs) = omega (arith, length-take_le n fs)

pub All-take : (P : Frag → Type 0) (n : ℕ) (fs : List Frag) → All P fs → All P (take n fs)
All-take P zero fs h = tt
All-take P (suc n) [] h = tt
All-take P (suc n) (f ∷ fs) (p, ps) = (p, All-take P n fs ps)

Placed-take : (n pos : ℕ) (fs : List Frag) → Placed pos fs → Placed pos (take n fs)
Placed-take zero pos fs h = tt
Placed-take (suc n) pos [] h = tt
Placed-take (suc n) pos (f ∷ fs) (p, ps) = (p, Placed-take n (pos + length f.body) fs ps)

pub AllPlaced-take : (n : ℕ) (fs : List Frag) → AllPlaced fs → AllPlaced (take n fs)
AllPlaced-take zero fs h = tt
AllPlaced-take (suc n) [] h = tt
AllPlaced-take (suc n) (f ∷ fs) (p, ps) = (p, Placed-take n (48 + length f.body) fs ps)

-- What the frames of run `id` hold, for a payload of `size` bytes.
pub record Carried (size id : ℕ) (fs : List Frag) : Type 0 where
  pub whole : joined fs ≡ replicate size (u8 id)
  pub inside : All FitsFrame fs
  pub placed : AllPlaced fs
  pub few : length fs ≤ 18

-- The frames that are used hold what all frames hold, and there are at most 18 of them.
pub joined-frames :
    (iphc : ℕ) (bytes : List ℕ)
    → let (used, fs) = frames iphc bytes in (joined (take used fs) ≡ joined fs) × (length fs ≤ 18)
unfolding frames prepare_sixlowpan fill_single
joined-frames iphc bytes = elim (Bool-cases (is_fragmented iphc (length bytes))) [
  | inl e ↦
      let off = (125 - 23 - 4 - iphc + 48) / 8 * 8 in
      let first : Frag = record { head = 23 + 4 + iphc; offset = 0; body = [] } in
      let fs = first ∷ prepare_frags 17 off in
      rw (frames, prepare_sixlowpan, e)
        (joined-used bytes fs, omega (arith, length-fill bytes fs, length-prepare_frags 17 off))
  | inr e ↦ rw (frames, prepare_sixlowpan, e) (refl, omega arith)
]

-- Run `id` with the frames that were prepared for its size.
module _ (iphc size id : ℕ) where
  abbrev pub run : ℕ × List Frag
  run = fill_frames (prepare_sixlowpan iphc size).0 size id (prepare_sixlowpan iphc size).1

  run-frames : run ≡ frames iphc (replicate size (u8 id))
  unfolding fill_frames frames
  run-frames = rw (frames, length-replicate size (u8 id)) refl

  pub frames_carry :
      6 ≤ iphc
      → iphc ≤ 9
      → 0 < size
      → size ≤ 1232
      → let (used, fs) = frames iphc (replicate size (u8 id)) in Carried size id (take used fs)
  frames_carry least most some_data fits =
      let bytes = replicate size (u8 id) in
      let sized = length-replicate size (u8 id) in
      let (whole, inside, placed) =
        frames_hold iphc bytes least most (omega (arith, sized)) (omega (arith, sized)) in
      let (used, few) = joined-frames iphc bytes in
      let n = (frames iphc bytes).0 in
      let fs = (frames iphc bytes).1 in
      record {
        whole = used ∙ whole;
        inside = All-take FitsFrame n fs inside;
        placed = AllPlaced-take n fs placed;
        few = omega (arith, few, length-take_le n fs);
      }

  pub run_carries :
      6 ≤ iphc → iphc ≤ 9 → 0 < size → size ≤ 1232 → Carried size id (take run.0 run.1)
  run_carries least most some_data fits = rw run-frames (frames_carry least most some_data fits)

  pub reset-run : reset_frag_buf iphc size run.1 ≡ (prepare_sixlowpan iphc size).1
  reset-run =
      let sized = length-replicate size (u8 id) in
      rw run-frames (rw sized at (reset_frag_buf-frames iphc (replicate size (u8 id))))
