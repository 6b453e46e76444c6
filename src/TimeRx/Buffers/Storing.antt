-- ===== src/TimeRx/Buffers/Storing.antt =====
-- The checksum of a run, and the MAC headers, which stay.
use riot_playground.Common.{
  ℕ, ◌+◌, ◌-◌, ◌^◌, ◌<◌, ◌≡◌, sym, ap, ◌∙◌, List, ◌++◌, length, write_at, arith, length-append,
  write_at-middle, length-write_at,
}
use mathlib.Core.List.{append_assoc}
use riot_playground.TimeRx.{iphc_len, ipudp_len}
use riot_playground.TimeRx.Headers.{Constants}
use riot_playground.TimeRx.Buffers.{Buffer, store_chksum}
use riot_playground.TimeRx.Buffers.Slots.{Slot, Stands}
use riot_playground.TimeRx.Buffers.Mhrs.{HasMhr, disp_of}
use riot_playground.TimeRx.Buffers.Preparing.{length-compressed}
use riot_playground.TimeRx.Buffers.Preparing

module _ (c : Constants) (src_port dst_port : ℕ) (hs : src_port < 2 ^ 16)
    (hd : dst_port < 2 ^ 16) where
  abbrev compressed : List ℕ
  compressed = Preparing.compressed c src_port dst_port hs hd

  abbrev slot_first : List ℕ → ℕ → List ℕ → Slot
  slot_first = Preparing.slot_first c src_port dst_port hs hd

  -- The checksum goes behind the compressed headers, over the one before.
  pub store_chksum-Stands :
      (mhr two checksum : List ℕ) (size : ℕ) (f : Buffer)
      → length mhr ≡ 23
      → length two ≡ 2
      → length checksum ≡ 2
      → Stands (slot_first mhr size two) f
      → Stands (slot_first mhr size checksum) (store_chksum c src_port dst_port checksum f)
  unfolding store_chksum
  store_chksum-Stands mhr two checksum size f h h2 hc v =
      let len = length-compressed c src_port dst_port hs hd in
      let front = mhr ++ disp_of c.frag_1_disp (size + ipudp_len) in
      let before = front ++ (v.tag ++ compressed) in
      let iphc = iphc_len src_port dst_port in
      let place = f.len - iphc + (iphc - 2) in
      let parted : f.bytes ≡ before ++ (two ++ v.rest) = v.split ∙ regroup front v.tag two v.rest in
      let at : place ≡ length before = omega (
        arith,
        v.len,
        v.tag_len,
        len,
        h,
        h2,
        length-append compressed two,
        length-append front (v.tag ++ compressed),
        length-append mhr (disp_of c.frag_1_disp (size + ipudp_len)),
        length-append v.tag compressed,
      ) in
      record {
        tag = v.tag;
        rest = v.rest;
        split =
            ap (λ bs. write_at bs place checksum) parted
            ∙ write_at-middle before two v.rest checksum place at (omega (arith, h2, hc))
            ∙ sym (regroup front v.tag checksum v.rest);
        tag_len = v.tag_len;
        size = length-write_at f.bytes place checksum ∙ v.size;
        len =
            omega (
              arith,
              v.len,
              h2,
              hc,
              length-append compressed two,
              length-append compressed checksum,
            );
      }
    where
      regroup :
          (a b d e : List ℕ)
          → a ++ (b ++ ((compressed ++ d) ++ e)) ≡ (a ++ (b ++ compressed)) ++ (d ++ e)
      regroup a b d e = simp append_assoc

-- A buffer keeps its MAC header.
pub HasMhr-Stands :
    (mhr disp : List ℕ) (s : Slot) (f : Buffer)
    → length mhr ≡ 23
    → s.front ≡ mhr ++ disp
    → Stands s f
    → HasMhr mhr f
HasMhr-Stands mhr disp s f h e v = record {
  rest = disp ++ (v.tag ++ (s.tail ++ v.rest));
  split =
      v.split
      ∙ ap (λ fr. fr ++ (v.tag ++ (s.tail ++ v.rest))) e
      ∙ append_assoc mhr disp (v.tag ++ (s.tail ++ v.rest));
  mhr_len = h;
  size = v.size;
}
