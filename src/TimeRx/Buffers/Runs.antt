-- ===== src/TimeRx/Buffers/Runs.antt =====
-- A run in several frames, from buffers that are ready for its size.
use riot_playground.Common.{
  ℕ, zero, suc, ◌+◌, ◌-◌, ◌*◌, ◌/◌, ◌%◌, ◌^◌, ◌≤◌, ◌<◌, ◌≡◌, refl, sym, ap, ◌∙◌, List, [], ◌∷◌,
  ◌++◌, map, true, some, length, take, replicate, arith, length-append, length-replicate, u8, All,
}
use riot_playground.TimeRx.{
  Frag, fill, frames, prepare_frags, prepare_sixlowpan, iphc_len, is_fragmented,
}
use riot_playground.TimeRx.Experiment.Delivered.{Carried, frames_carry}
use riot_playground.TimeRx.Buffers.{Buffer, content, run_buffers, reset_buffers, store_chksum}
use riot_playground.TimeRx.Buffers.Slots.{Slot, IsSlot}
use riot_playground.TimeRx.Buffers.Filling.{
  frag_of, KeptAll, filled_all, fill_buffers-Simulated, reset_lens-StandAll,
}
use riot_playground.TimeRx.Buffers.Preparing.{compressed, length-compressed}
use riot_playground.TimeRx.Buffers.Receiver.{headers_of, receive_all}
use riot_playground.TimeRx.Buffers.Reassembly.{IsFirst, SameOffsets-fill, receive-frames}
use riot_playground.TimeRx.Buffers.Promise.{rfc, Delivers, HasLength}
use riot_playground.TimeRx.Buffers.Mhrs.{disp_of}
use riot_playground.TimeRx.Buffers.Storing.{store_chksum-Stands}
use riot_playground.TimeRx.Buffers.Headed.{
  frames_headed, slots_IsNext, slots_IsSlot, slots_one_byte, slots_frags, frames_addressed,
}
use riot_playground.TimeRx.Buffers.Headed

length-take_le : (n : ℕ) (xs : List ℕ) → length (take n xs) ≤ length xs
length-take_le zero xs = omega arith
length-take_le (suc n) [] = omega arith
length-take_le (suc n) (x ∷ xs) = omega (arith, length-take_le n xs)

contents_inside :
    (ss : List Slot) (fs : List Buffer) (n : ℕ)
    → KeptAll ss fs
    → All (λ f. length f ≤ 125) (map content (take n fs))
contents_inside ss fs zero kept = tt
contents_inside [] [] (suc n) kept = tt
contents_inside [] (f ∷ fs) (suc n) kept = absurd kept
contents_inside (s ∷ ss) [] (suc n) kept = tt
contents_inside (s ∷ ss) (f ∷ fs) (suc n) (k, kept) =
    (omega (arith, k.size, length-take_le f.len f.bytes), contents_inside ss fs n kept)

length-filled_all :
    (id : ℕ) (ss : List Slot) (gs : List Frag) → length (filled_all id ss gs) ≤ length gs
length-filled_all id [] gs = omega arith
length-filled_all id (s ∷ ss) [] = omega arith
length-filled_all id (s ∷ ss) (g ∷ gs) = omega (arith, length-filled_all id ss gs)

frames_several :
    (iphc : ℕ) (bytes : List ℕ)
    → is_fragmented iphc (length bytes) ≡ true
    → frames iphc bytes
      ≡ fill bytes (
          record { head = 23 + 4 + iphc; offset = 0; body = [] }
          ∷ prepare_frags 17 ((125 - 23 - 4 - iphc + 48) / 8 * 8))
unfolding frames prepare_sixlowpan
frames_several iphc bytes e = rw (frames, prepare_sixlowpan, e) refl

module _ (src_port dst_port : ℕ) (hs : src_port < 2 ^ 16) (hd : dst_port < 2 ^ 16) where
  abbrev first_slot : List ℕ → ℕ → List ℕ → Slot
  first_slot = Headed.first_slot src_port dst_port hs hd

  abbrev other_slots : List (List ℕ) → ℕ → ℕ → List Slot
  other_slots = Headed.other_slots src_port dst_port hs hd

  abbrev start_offset : ℕ
  start_offset = Headed.start_offset src_port dst_port hs hd

  abbrev Ready : List ℕ → List (List ℕ) → ℕ → List Buffer → Type 0
  Ready = Headed.Ready src_port dst_port hs hd

  frames_model :
      (mhr checksum : List ℕ) (mhrs : List (List ℕ)) (size : ℕ) (bytes : List ℕ)
      → length mhrs ≡ 17
      → length checksum ≡ 2
      → length bytes ≡ size
      → is_fragmented (iphc_len src_port dst_port) size ≡ true
      → frames (iphc_len src_port dst_port) bytes
        ≡ fill bytes
            (map frag_of (first_slot mhr size checksum ∷ other_slots mhrs size start_offset))
  frames_model mhr checksum mhrs size bytes many hc sized several =
      let iphc = iphc_len src_port dst_port in
      let len = length-compressed rfc src_port dst_port hs hd in
      let tail = length-append (compressed rfc src_port dst_port hs hd) checksum in
      let head : 23 + 4 + iphc ≡ 27 + length (compressed rfc src_port dst_port hs hd ++ checksum) =
        omega (arith, len, tail, hc) in
      let others : prepare_frags 17 start_offset
          ≡ map frag_of (other_slots mhrs size start_offset) =
        ap (λ n. prepare_frags n start_offset) (sym many)
        ∙ sym (slots_frags src_port dst_port hs hd mhrs size start_offset) in
      let several' : is_fragmented iphc (length bytes) ≡ true =
        ap (is_fragmented iphc) sized ∙ several in
      let first : Frag = record { head = 23 + 4 + iphc; offset = 0; body = [] } in
      frames_several iphc bytes several'
      ∙ ap (λ gs. fill bytes (first ∷ gs)) others
      ∙ ap
          (λ n. fill bytes (
            record { head = n; offset = 0; body = [] }
            ∷ map frag_of (other_slots mhrs size start_offset)))
          head

  reset-Ready :
      (mhr checksum : List ℕ) (mhrs : List (List ℕ)) (size : ℕ) (fs : List Buffer)
      → length checksum ≡ 2
      → is_fragmented (iphc_len src_port dst_port) size ≡ true
      → KeptAll (first_slot mhr size checksum ∷ other_slots mhrs size start_offset) fs
      → Ready mhr mhrs size (reset_buffers rfc src_port dst_port size fs)
  unfolding reset_buffers
  reset-Ready mhr checksum mhrs size [] hc several kept = absurd kept
  reset-Ready mhr checksum mhrs size (f ∷ fs) hc several (k, kept) =
      let len = length-compressed rfc src_port dst_port hs hd in
      let tail = length-append (compressed rfc src_port dst_port hs hd) checksum in
      let others = other_slots mhrs size start_offset in
      rw several (
        checksum,
        hc,
        (
          record {
            tag = k.tag;
            rest = k.rest;
            split = k.split;
            tag_len = k.tag_len;
            size = k.size;
            len = omega (arith, len, tail, hc);
          },
          reset_lens-StandAll others fs
              (slots_one_byte src_port dst_port hs hd mhrs size start_offset) kept,
        ),
      )

  -- A run in several frames.
  pub run_fragmented :
      (mhr checksum : List ℕ) (mhrs : List (List ℕ)) (size id : ℕ) (fs : List Buffer)
      → 0 < size
      → size ≤ 1232
      → length checksum ≡ 2
      → length mhr ≡ 23
      → All (HasLength 23) mhrs
      → length mhrs ≡ 17
      → (6 ≤ iphc_len src_port dst_port) × (iphc_len src_port dst_port ≤ 9)
      → is_fragmented (iphc_len src_port dst_port) size ≡ true
      → Ready mhr mhrs size fs
      → let (used, out) =
          run_buffers rfc src_port dst_port true id checksum (replicate size (u8 id)) fs in
        Delivers
          (mhr ∷ mhrs)
          (compressed rfc src_port dst_port hs hd ++ checksum)
          (iphc_len src_port dst_port)
          size
          id
          (map content (take used out))
        × Ready mhr mhrs size (reset_buffers rfc src_port dst_port size out)
  unfolding run_buffers
  run_fragmented mhr checksum mhrs size id [] some_data fits hc h hall many bounds several
        (two, h2, v) =
      absurd v
  run_fragmented mhr checksum mhrs size id (f ∷ fs) some_data fits hc h hall many bounds several
        (two, h2, (v, vs)) =
      let iphc = iphc_len src_port dst_port in
      let bytes = replicate size (u8 id) in
      let len = length-compressed rfc src_port dst_port hs hd in
      let tail = length-append (compressed rfc src_port dst_port hs hd) checksum in
      let s = first_slot mhr size checksum in
      let ss = other_slots mhrs size start_offset in
      let stored =
        store_chksum-Stands rfc src_port dst_port hs hd mhr two checksum size f h h2 hc v in
      let slot : IsSlot s = (
        omega (arith, h, length-append mhr (disp_of 0xc0 (size + 48))),
        omega (arith, len, tail, hc, bounds),
      ) in
      let sim =
        fill_buffers-Simulated id bytes (s ∷ ss)
          (store_chksum rfc src_port dst_port checksum f ∷ fs)
          (slot, slots_IsSlot src_port dst_port hs hd mhrs size start_offset hall) (stored, vs) in
      let sized = length-replicate size (u8 id) in
      let model = frames_model mhr checksum mhrs size bytes many hc sized several in
      let carried : (let (used, gs) = fill bytes (map frag_of (s ∷ ss)) in
          Carried size id (take used gs)) =
        rw model at (frames_carry iphc size id bounds.0 bounds.1 some_data fits) in
      let (used, gs) = fill bytes (map frag_of (s ∷ ss)) in
      let handed = sim.same_bytes in
      let first : IsFirst iphc size s = record {
        mhr = mhr;
        mhr_len = h;
        front = refl;
        tail_len = omega (arith, len, tail, hc);
      } in
      (
        record {
          few =
              omega (
                arith,
                ap length handed,
                length-filled_all id (s ∷ ss) (take used gs),
                carried.few,
              );
          inside = contents_inside (s ∷ ss) _ _ sim.kept;
          addressed =
              ap (map (take 23)) handed
              ∙ frames_addressed src_port dst_port hs hd id mhr checksum mhrs size (take used gs) h
                  hall
              ∙ sym (ap (λ fs. take (length fs) (mhr ∷ mhrs)) handed);
          headed =
              ap (headers_of iphc size (id % 2 ^ 16)) handed
              ∙ frames_headed iphc size id s ss (take used gs) (omega arith) first
                  (omega (arith, sized, ap length carried.whole));
          received = λ x.
              let buffer : List ℕ = replicate size x in
              let room = length-replicate size x in
              ap (λ bss. receive_all iphc size (id % 2 ^ 16) bss buffer) handed
              ∙ receive-frames iphc size (id % 2 ^ 16) id (omega arith) refl s ss (take used gs)
                  buffer first (slots_IsNext src_port dst_port hs hd mhrs size start_offset hall)
                  (SameOffsets-fill bytes (s ∷ ss) used) carried.placed
                  (omega (arith, room, sized, ap length carried.whole))
              ∙ ap some carried.whole;
        },
        reset-Ready mhr checksum mhrs size _ hc several sim.kept,
      )
