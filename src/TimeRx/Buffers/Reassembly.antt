-- ===== src/TimeRx/Buffers/Reassembly.antt =====
-- The frames of a run make the payload again.
use Prim.Native.Nat.{min}
use mathlib.Core.Path.{subst}
use riot_playground.Common.{
  ℕ, zero, suc, ◌+◌, ◌-◌, ◌*◌, ◌/◌, ◌%◌, ◌^◌, ◌<◌, ◌≡◌, refl, ap, ◌∙◌, List, [], ◌∷◌, ◌++◌, map,
  some, ◌==◌, length, take, drop, write_at, arith, length-append, length-drop, u8, All, Bool-cases,
  inl, inr,
}
use mathlib.Core.List.{append_assoc}
use riot_playground.TimeRx.{Frag, fill, frag_len}
use riot_playground.TimeRx.Fragments.{joined, Placed, AllPlaced}
use riot_playground.TimeRx.Headers.{htons, with_disp}
use riot_playground.TimeRx.Buffers.Slots.{Slot, filled}
use riot_playground.TimeRx.Buffers.Filling.{filled_all, frag_of}
use riot_playground.TimeRx.Buffers.Receiver.{
  receive_frame, headers_of, headers_of-first, take_mhr, receive_all, receive_all-cons,
  receive-first, receive-next, placed_piece,
}

abbrev pub SameOffsets : List Slot → List Frag → Type 0
SameOffsets ss [] = Unit
SameOffsets [] (g ∷ gs) = ⊥
SameOffsets (s ∷ ss) (g ∷ gs) = (g.offset ≡ s.offset) × SameOffsets ss gs

-- The slot of a later fragment of a datagram with `size` bytes of payload.
pub record IsNext (size : ℕ) (s : Slot) : Type 0 where
  pub mhr : List ℕ
  pub mhr_len : length mhr ≡ 23
  pub front : s.front ≡ mhr ++ with_disp 0xe0 (u8 ((size + 48) / 256)) ∷ u8 (size + 48) ∷ []
  pub tail : s.tail ≡ s.offset ∷ []

pub record IsFirst (iphc size : ℕ) (s : Slot) : Type 0 where
  pub mhr : List ℕ
  pub mhr_len : length mhr ≡ 23
  pub front : s.front ≡ mhr ++ with_disp 0xc0 (u8 ((size + 48) / 256)) ∷ u8 (size + 48) ∷ []
  pub tail_len : length s.tail ≡ iphc

module _ (iphc size tag id : ℕ) (small : size + 48 < 2048) (same : tag ≡ id % 2 ^ 16) where
  receive-filled_next :
      (s : Slot) (data' buffer : List ℕ)
      → IsNext size s
      → receive_frame iphc size tag (filled s id data') buffer
        ≡ some (write_at buffer (8 * s.offset - 48) data')
  receive-filled_next s data' buffer h =
      ap (λ fr. receive_frame iphc size tag ((fr ++ (htons id ++ s.tail)) ++ data') buffer) h.front
      ∙ ap
          (λ tl.
            receive_frame iphc size tag
              (((h.mhr ++ with_disp 0xe0 (u8 ((size + 48) / 256)) ∷ u8 (size + 48) ∷ [])
                  ++ (htons id ++ tl))
                ++ data')
              buffer)
          h.tail
      ∙ receive-next iphc size tag id small same h.mhr data' buffer s.offset h.mhr_len

  receive-filled_first :
      (s : Slot) (data' buffer : List ℕ)
      → IsFirst iphc size s
      → receive_frame iphc size tag (filled s id data') buffer ≡ some (write_at buffer 0 data')
  receive-filled_first s data' buffer h =
      ap (λ fr. receive_frame iphc size tag ((fr ++ (htons id ++ s.tail)) ++ data') buffer) h.front
      ∙ receive-first iphc size tag id small same h.mhr s.tail data' buffer h.mhr_len h.tail_len

  -- Its compressed headers and its MAC header.
  pub headers_of-filled :
      (s : Slot) (data' : List ℕ) (fs : List (List ℕ))
      → IsFirst iphc size s
      → headers_of iphc size tag (filled s id data' ∷ fs) ≡ s.tail
  headers_of-filled s data' fs h =
      ap (λ fr. headers_of iphc size tag (((fr ++ (htons id ++ s.tail)) ++ data') ∷ fs)) h.front
      ∙ headers_of-first iphc size tag id small same h.mhr s.tail data' fs h.mhr_len h.tail_len

  receive_none_left :
      (done rest : List ℕ)
      → length rest ≡ 0
      → receive_all iphc size tag [] (done ++ rest) ≡ some (done ++ [])
  unfolding receive_all
  receive_none_left done [] h = refl
  receive_none_left done (b ∷ rest) h = absurd (omega arith)

  -- The frames after those that make up `done`.
  receive-others :
      (ss : List Slot) (gs : List Frag) (done rest : List ℕ)
      → All (IsNext size) ss
      → SameOffsets ss gs
      → Placed (48 + length done) gs
      → length rest ≡ length (joined gs)
      → receive_all iphc size tag (filled_all id ss gs) (done ++ rest) ≡ some (done ++ joined gs)
  receive-others [] [] done rest slots offsets placed left = receive_none_left done rest left
  receive-others (s ∷ ss) [] done rest slots offsets placed left = receive_none_left done rest left
  receive-others [] (g ∷ gs) done rest slots offsets placed left = absurd offsets
  receive-others (s ∷ ss) (g ∷ gs) done rest (slot, slots) (o, offsets) (p, placed) left =
      let both = length-append g.body (joined gs) in
      let left' = drop (length g.body) rest in
      let at_end : 0 < length g.body → 8 * s.offset - 48 ≡ length done =
        λ some_here. omega (arith, o, p some_here) in
      let written =
        placed_piece done g.body rest (8 * s.offset - 48) at_end (omega (arith, left, both)) in
      let length_done = length-append done g.body in
      let placed' : Placed (48 + length (done ++ g.body)) gs =
        subst (λ n. Placed n gs) (omega (arith, length_done)) placed in
      receive_all-cons iphc size tag (filled s id g.body) (filled_all id ss gs) (done ++ rest)
        ((done ++ g.body) ++ left')
        (receive-filled_next s g.body (done ++ rest) slot ∙ ap some written)
      ∙ receive-others ss gs (done ++ g.body) left' slots offsets placed'
          (omega (arith, left, both, length-drop (length g.body) rest))
      ∙ ap some (append_assoc done g.body (joined gs))

  -- All frames of a run, into a buffer of the size of the payload.
  pub receive-frames :
      (s : Slot) (ss : List Slot) (gs : List Frag) (buffer : List ℕ)
      → IsFirst iphc size s
      → All (IsNext size) ss
      → SameOffsets (s ∷ ss) gs
      → AllPlaced gs
      → length buffer ≡ length (joined gs)
      → receive_all iphc size tag (filled_all id (s ∷ ss) gs) buffer ≡ some (joined gs)
  receive-frames s ss [] buffer first slots offsets placed left = receive_none_left [] buffer left
  receive-frames s ss (g ∷ gs) buffer first slots (o, offsets) (p, placed) left =
      let both = length-append g.body (joined gs) in
      let left' = drop (length g.body) buffer in
      let written =
        placed_piece [] g.body buffer 0 (λ some_here. refl) (omega (arith, left, both)) in
      receive_all-cons iphc size tag (filled s id g.body) (filled_all id ss gs) buffer
        (g.body ++ left') (receive-filled_first s g.body buffer first ∙ ap some written)
      ∙ receive-others ss gs g.body left' slots offsets placed
          (omega (arith, left, both, length-drop (length g.body) buffer))

-- The offsets of the frames are those of their slots.
pub SameOffsets-fill :
    (rest : List ℕ) (ss : List Slot) (n : ℕ)
    → SameOffsets ss (take n (fill rest (map frag_of ss)).1)
unfolding fill
SameOffsets-fill rest ss zero = tt
SameOffsets-fill rest [] (suc n) = tt
SameOffsets-fill rest (s ∷ ss) (suc n) =
    let m = min ((125 - frag_len (frag_of s)) / 8 * 8) (length rest) in
    elim (Bool-cases (length rest == 0)) [
      | inl e ↦ rw e (refl, SameOffsets-fill (drop m rest) ss n)
      | inr e ↦ rw e (refl, SameOffsets-fill (drop m rest) ss n)
    ]

-- The frames start with the MAC headers of their slots.
pub mhr-filled :
    (s : Slot) (id : ℕ) (mhr disp data' : List ℕ)
    → length mhr ≡ 23
    → s.front ≡ mhr ++ disp
    → take 23 (filled s id data') ≡ mhr
mhr-filled s id mhr disp data' h e =
    ap (λ fr. take 23 ((fr ++ (htons id ++ s.tail)) ++ data')) e
    ∙ take_mhr mhr disp (htons id ++ s.tail) data' h
