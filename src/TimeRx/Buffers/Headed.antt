-- ===== src/TimeRx/Buffers/Headed.antt =====
-- The slots of a run in several frames, and the headers that its frames start with.
use riot_playground.Common.{
  ℕ, ◌+◌, ◌-◌, ◌*◌, ◌/◌, ◌%◌, ◌^◌, ◌<◌, ◌≡◌, refl, ap, ◌∙◌, List, [], ◌∷◌, map, length, take, arith,
  length-append, u8, All,
}
use riot_playground.TimeRx.{Frag, prepare_frags, iphc_len}
use riot_playground.TimeRx.Fragments.{joined}
use riot_playground.TimeRx.Buffers.{Buffer}
use riot_playground.TimeRx.Buffers.Slots.{Slot, IsSlot}
use riot_playground.TimeRx.Buffers.Filling.{frag_of, StandAll, filled_all}
use riot_playground.TimeRx.Buffers.Preparing.{slot_first, slot_next, slots_others}
use riot_playground.TimeRx.Buffers.Receiver.{headers_of}
use riot_playground.TimeRx.Buffers.Reassembly.{IsFirst, IsNext, headers_of-filled, mhr-filled}
use riot_playground.TimeRx.Buffers.Promise.{rfc, HasLength}
use riot_playground.TimeRx.Buffers.Mhrs.{disp_of}

cons_both : {x y : List ℕ} {xs ys : List (List ℕ)} → x ≡ y → xs ≡ ys → (x ∷ xs) ≡ (y ∷ ys)
cons_both {x} {y} {xs} {ys} e e' = ap (λ z. z ∷ xs) e ∙ ap (λ zs. y ∷ zs) e'

-- Frames that hold anything start with the first.
pub frames_headed :
    (iphc size id : ℕ) (s : Slot) (ss : List Slot) (gs : List Frag)
    → size + 48 < 2048
    → IsFirst iphc size s
    → 0 < length (joined gs)
    → headers_of iphc size (id % 2 ^ 16) (filled_all id (s ∷ ss) gs) ≡ s.tail
frames_headed iphc size id s ss [] small first some_data = absurd (omega arith)
frames_headed iphc size id s ss (g ∷ gs) small first some_data =
    headers_of-filled iphc size (id % 2 ^ 16) id small refl s g.body (filled_all id ss gs) first

module _ (src_port dst_port : ℕ) (hs : src_port < 2 ^ 16) (hd : dst_port < 2 ^ 16) where
  abbrev pub first_slot : List ℕ → ℕ → List ℕ → Slot
  first_slot = slot_first rfc src_port dst_port hs hd

  abbrev pub other_slots : List (List ℕ) → ℕ → ℕ → List Slot
  other_slots = slots_others rfc src_port dst_port hs hd

  abbrev pub start_offset : ℕ
  start_offset = (125 - 23 - 4 - iphc_len src_port dst_port + 48) / 8 * 8

  pub slots_IsNext :
      (mhrs : List (List ℕ)) (size offset : ℕ)
      → All (HasLength 23) mhrs
      → All (IsNext size) (other_slots mhrs size offset)
  slots_IsNext [] size offset h = tt
  slots_IsNext (mhr ∷ mhrs) size offset (h, hs') = (
    record { mhr = mhr; mhr_len = h; front = refl; tail = refl },
    slots_IsNext mhrs size (offset + 96) hs',
  )

  pub slots_IsSlot :
      (mhrs : List (List ℕ)) (size offset : ℕ)
      → All (HasLength 23) mhrs
      → All IsSlot (other_slots mhrs size offset)
  slots_IsSlot [] size offset h = tt
  slots_IsSlot (mhr ∷ mhrs) size offset (h, hs') = (
    (omega (arith, length-append mhr (disp_of 0xe0 (size + 48))), omega arith),
    slots_IsSlot mhrs size (offset + 96) hs',
  )

  pub slots_one_byte :
      (mhrs : List (List ℕ)) (size offset : ℕ)
      → All (λ s. length s.tail ≡ 1) (other_slots mhrs size offset)
  slots_one_byte [] size offset = tt
  slots_one_byte (mhr ∷ mhrs) size offset = (refl, slots_one_byte mhrs size (offset + 96))

  pub slots_frags :
      (mhrs : List (List ℕ)) (size offset : ℕ)
      → map frag_of (other_slots mhrs size offset) ≡ prepare_frags (length mhrs) offset
  unfolding prepare_frags
  slots_frags [] size offset = refl
  slots_frags (mhr ∷ mhrs) size offset =
      ap (λ fs. record { head = 28; offset = u8 (offset / 8); body = [] } ∷ fs)
        (slots_frags mhrs size (offset + 96))

  pub slots_addressed :
      (id : ℕ) (mhrs : List (List ℕ)) (size offset : ℕ) (gs : List Frag)
      → All (HasLength 23) mhrs
      → let handed = filled_all id (other_slots mhrs size offset) gs in
        map (take 23) handed ≡ take (length handed) mhrs
  slots_addressed id [] size offset gs h = refl
  slots_addressed id (mhr ∷ mhrs) size offset [] h = refl
  slots_addressed id (mhr ∷ mhrs) size offset (g ∷ gs) (h, hs') =
      let s = slot_next rfc src_port dst_port hs hd mhr size offset in
      let ih = slots_addressed id mhrs size (offset + 96) gs hs' in
      let mine = mhr-filled s id mhr (disp_of 0xe0 (size + 48)) g.body h refl in cons_both mine ih

  pub frames_addressed :
      (id : ℕ) (mhr checksum : List ℕ) (mhrs : List (List ℕ)) (size : ℕ) (gs : List Frag)
      → length mhr ≡ 23
      → All (HasLength 23) mhrs
      → let handed =
          filled_all id (first_slot mhr size checksum ∷ other_slots mhrs size start_offset) gs in
        map (take 23) handed ≡ take (length handed) (mhr ∷ mhrs)
  frames_addressed id mhr checksum mhrs size [] h hall = refl
  frames_addressed id mhr checksum mhrs size (g ∷ gs) h hall =
      let s = first_slot mhr size checksum in
      cons_both (mhr-filled s id mhr (disp_of 0xc0 (size + 48)) g.body h refl)
        (slots_addressed id mhrs size start_offset gs hall)

  -- The buffers with the headers for a payload of `size` bytes in several frames, and any checksum.
  abbrev pub Ready : List ℕ → List (List ℕ) → ℕ → List Buffer → Type 0
  Ready mhr mhrs size fs =
      (two : List ℕ) × (length two ≡ 2)
      × StandAll (first_slot mhr size two ∷ other_slots mhrs size start_offset) fs
