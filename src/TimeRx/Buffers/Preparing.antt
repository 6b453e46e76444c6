-- ===== src/TimeRx/Buffers/Preparing.antt =====
-- The headers that `prepare_sixlowpan` writes.
use riot_playground.Common.{
  ℕ, ◌+◌, ◌-◌, ◌/◌, ◌^◌, ◌≤◌, ◌<◌, ◌≡◌, refl, sym, ap, ◌∙◌, List, [], ◌∷◌, ◌++◌, length, take, drop,
  write_at, arith, length-append, length-take, length-drop, take-drop, write_at-middle,
  length-write_at, u8,
}
use mathlib.Core.List.{append_assoc}
use riot_playground.TimeRx.{iphc_len, ipudp_len}
use riot_playground.TimeRx.Ports.{decode_ports-nhc_ports}
use riot_playground.TimeRx.Headers.{Constants, htons, init_frag1, init_fragn, init_iphc}
use riot_playground.TimeRx.Buffers.{Buffer, prepare_first, prepare_next, prepare_others}
use riot_playground.TimeRx.Buffers.Slots.{Slot, Stands}
use riot_playground.TimeRx.Buffers.Filling.{StandAll}
use riot_playground.TimeRx.Buffers.Mhrs.{HasMhr, HasMhrs, disp_of, write_inside}

module _ (c : Constants) (src_port dst_port : ℕ) (hs : src_port < 2 ^ 16)
    (hd : dst_port < 2 ^ 16) where
  -- The compressed headers without their checksum.
  abbrev pub compressed : List ℕ
  compressed = init_iphc c src_port dst_port

  pub length-compressed : 2 + length compressed ≡ iphc_len src_port dst_port
  unfolding init_iphc
  length-compressed = omega (arith, (decode_ports-nhc_ports src_port dst_port hs hd).1)

  -- The first of several frames, with a checksum.
  abbrev pub slot_first : List ℕ → ℕ → List ℕ → Slot
  slot_first mhr size checksum = record {
    front = mhr ++ disp_of c.frag_1_disp (size + ipudp_len);
    tail = compressed ++ checksum;
    offset = 0;
  }

  abbrev pub slot_next : List ℕ → ℕ → ℕ → Slot
  slot_next mhr size offset = record {
    front = mhr ++ disp_of c.frag_n_disp (size + ipudp_len);
    tail = u8 (offset / 8) ∷ [];
    offset = u8 (offset / 8);
  }

  abbrev pub slots_others : List (List ℕ) → ℕ → ℕ → List Slot
  slots_others [] size offset = []
  slots_others (mhr ∷ mhrs) size offset =
      slot_next mhr size offset ∷ slots_others mhrs size (offset + 96)

  length-rest : (mhr : List ℕ) (f : Buffer) (h : HasMhr mhr f) → length h.rest ≡ 102
  length-rest mhr f h =
      omega (arith, h.size, h.mhr_len, ap length h.split, length-append mhr h.rest)

  pub prepare_first-Stands :
      (mhr : List ℕ) (size : ℕ) (f : Buffer)
      → iphc_len src_port dst_port ≤ 9
      → HasMhr mhr f
      → (two : List ℕ) × (length two ≡ 2)
        × Stands (slot_first mhr size two) (prepare_first c src_port dst_port size f)
  unfolding prepare_first init_frag1
  prepare_first-Stands mhr size f most h =
      let k = length compressed in
      let left = drop k (drop 4 h.rest) in
      let two = take 2 left in
      let frag1 = init_frag1 c (size + ipudp_len) 0 in
      let rest_len = length-rest mhr f h in
      let len = length-compressed in
      let left_len : length left ≡ 98 - k =
        omega (arith, length-drop k (drop 4 h.rest), length-drop 4 h.rest, rest_len) in
      let two_len : length two ≡ 2 = length-take 2 left (omega (arith, left_len, len)) in
      let inner : write_at f.bytes 27 compressed ≡ mhr ++ (take 4 h.rest ++ (compressed ++ left)) =
        ap (λ bs. write_at bs 27 compressed) h.split
        ∙ write_inside mhr h.rest compressed 4 27 (omega (arith, h.mhr_len))
            (omega (arith, len, rest_len)) in
      let outer =
        ap (λ bs. write_at bs 23 frag1) inner
        ∙ write_at-middle mhr (take 4 h.rest) (compressed ++ left) frag1 23
            (omega (arith, h.mhr_len)) (sym (length-take 4 h.rest (omega (arith, rest_len)))) in
      let parted : compressed ++ left ≡ (compressed ++ two) ++ drop 2 left =
        ap (λ bs. compressed ++ bs) (sym (take-drop 2 left))
        ∙ sym (append_assoc compressed two (drop 2 left)) in
      (
        two,
        two_len,
        record {
          tag = htons 0;
          rest = drop 2 left;
          split =
              outer
              ∙ sym (
                  append_assoc mhr (disp_of c.frag_1_disp (size + ipudp_len))
                    (htons 0 ++ (compressed ++ left)))
              ∙ ap (λ bs. (mhr ++ disp_of c.frag_1_disp (size + ipudp_len)) ++ (htons 0 ++ bs))
                  parted;
          tag_len = refl;
          size =
              length-write_at (write_at f.bytes 27 compressed) 23 frag1
              ∙ length-write_at f.bytes 27 compressed
              ∙ h.size;
          len = omega (arith, len, two_len, length-append compressed two);
        },
      )

  prepare_next-Stands :
      (mhr : List ℕ) (size offset : ℕ) (f : Buffer)
      → iphc_len src_port dst_port ≤ 9
      → HasMhr mhr f
      → Stands (slot_next mhr size offset) (prepare_next c src_port dst_port size offset f)
  unfolding prepare_next init_fragn
  prepare_next-Stands mhr size offset f most h =
      let k = length compressed in
      let fragn = init_fragn c (size + ipudp_len) 0 offset in
      let rest_len = length-rest mhr f h in
      let len = length-compressed in
      let left = drop 5 h.rest in
      let left_len = length-drop 5 h.rest in
      let front = mhr ++ disp_of c.frag_n_disp (size + ipudp_len) in
      let headed : write_at f.bytes 23 fragn ≡ (mhr ++ fragn) ++ left =
        ap (λ bs. write_at bs 23 fragn) h.split
        ∙ write_inside mhr h.rest fragn 0 23 (omega (arith, h.mhr_len)) (omega (arith, rest_len))
        ∙ sym (append_assoc mhr fragn left) in
      let outer =
        ap (λ bs. write_at bs 28 compressed) headed
        ∙ write_inside (mhr ++ fragn) left compressed 0 28
            (omega (arith, h.mhr_len, length-append mhr fragn))
            (omega (arith, len, rest_len, left_len)) in
      record {
        tag = htons 0;
        rest = compressed ++ drop k left;
        split =
            outer
            ∙ append_assoc mhr fragn (compressed ++ drop k left)
            ∙ sym (
                append_assoc mhr (disp_of c.frag_n_disp (size + ipudp_len))
                  (htons 0 ++ ((u8 (offset / 8) ∷ []) ++ (compressed ++ drop k left))));
        tag_len = refl;
        size =
            length-write_at (write_at f.bytes 23 fragn) 28 compressed
            ∙ length-write_at f.bytes 23 fragn
            ∙ h.size;
        len = refl;
      }

  pub prepare_others-StandAll :
      (mhrs : List (List ℕ)) (size offset : ℕ) (fs : List Buffer)
      → iphc_len src_port dst_port ≤ 9
      → HasMhrs mhrs fs
      → StandAll (slots_others mhrs size offset) (prepare_others c src_port dst_port size offset fs)
  unfolding prepare_others
  prepare_others-StandAll [] size offset [] most h = tt
  prepare_others-StandAll [] size offset (f ∷ fs) most h = h
  prepare_others-StandAll (mhr ∷ mhrs) size offset [] most h = h
  prepare_others-StandAll (mhr ∷ mhrs) size offset (f ∷ fs) most (h, hs) = (
    prepare_next-Stands mhr size offset f most h,
    prepare_others-StandAll mhrs size (offset + 96) fs most hs,
  )
