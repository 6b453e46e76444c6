-- ===== src/TimeRx/Buffers/SingleRuns.antt =====
-- A run in a single frame.
use riot_playground.Common.{
  ℕ, ◌+◌, ◌%◌, ◌^◌, ◌≤◌, ◌<◌, ◌≡◌, refl, sym, ap, ◌∙◌, List, [], ◌∷◌, ◌++◌, map, false, length,
  take, drop, replicate, write_at, arith, length-append, length-replicate, length-write_at,
  take-append, u8,
}
use mathlib.Core.List.{append_assoc}
use riot_playground.TimeRx.{iphc_len, is_fragmented}
use riot_playground.TimeRx.Buffers.{Buffer, content, store_chksum, run_buffers, reset_buffers}
use riot_playground.TimeRx.Buffers.Preparing.{compressed, length-compressed}
use riot_playground.TimeRx.Buffers.Mhrs.{HasMhrs}
use riot_playground.TimeRx.Buffers.Receiver.{}
use riot_playground.TimeRx.Buffers.Promise.{rfc, Delivers}
use riot_playground.TimeRx.Buffers.Single.{
  IsSingle, store_chksum-IsSingle, stored, received, own_mhr, own_headers,
}

module _ (src_port dst_port : ℕ) (hs : src_port < 2 ^ 16) (hd : dst_port < 2 ^ 16) where
  abbrev iphc : List ℕ
  iphc = compressed rfc src_port dst_port hs hd

  -- The buffers with the headers of a single frame in the first.
  abbrev pub SingleReady : List ℕ → List (List ℕ) → List Buffer → Type 0
  SingleReady mhr mhrs [] = ⊥
  SingleReady mhr mhrs (f ∷ fs) =
      ((two : List ℕ) × (length two ≡ 2) × IsSingle src_port dst_port hs hd mhr two f)
      × HasMhrs mhrs fs

  pub run_single :
      (mhr checksum : List ℕ) (mhrs : List (List ℕ)) (size id : ℕ) (fs : List Buffer)
      → length checksum ≡ 2
      → length mhr ≡ 23
      → iphc_len src_port dst_port ≤ 9
      → is_fragmented (iphc_len src_port dst_port) size ≡ false
      → SingleReady mhr mhrs fs
      → let (used, out) =
          run_buffers rfc src_port dst_port false id checksum (replicate size (u8 id)) fs in
        Delivers
          (mhr ∷ mhrs)
          (iphc ++ checksum)
          (iphc_len src_port dst_port)
          size
          id
          (map content (take used out))
        × SingleReady mhr mhrs (reset_buffers rfc src_port dst_port size out)
  unfolding run_buffers reset_buffers
  run_single mhr checksum mhrs size id [] hc h most single v = absurd v
  run_single mhr checksum mhrs size id (f ∷ fs) hc h most single ((two, h2, v), vs) =
      let k = iphc_len src_port dst_port in
      let len = length-compressed rfc src_port dst_port hs hd in
      let bytes = replicate size (u8 id) in
      let sized : length bytes ≡ size = length-replicate size (u8 id) in
      let fits : length bytes + k ≤ 102 = ground (arith, single, sized, most) in
      let g = store_chksum rfc src_port dst_port checksum f in
      let v' = store_chksum-IsSingle src_port dst_port hs hd mhr h two checksum f h2 hc v in
      let front = mhr ++ (iphc ++ checksum) in
      let left = drop (length bytes) v'.rest in
      let written = stored src_port dst_port hs hd mhr h checksum bytes g hc fits v' in
      let whole_len = length-append front bytes in
      let front_len = length-append mhr (iphc ++ checksum) in
      let tail_len = length-append iphc checksum in
      let held : take (g.len + length bytes) (write_at g.bytes g.len bytes) ≡ front ++ bytes =
        ap (take (g.len + length bytes)) written
        ∙ take-append (front ++ bytes) left (g.len + length bytes)
            (omega (arith, v'.len, whole_len, front_len, tail_len, hc, h, len)) in
      rw (single, held)
        (
          record {
            few = omega arith;
            inside = (omega (arith, whole_len, front_len, tail_len, hc, h, len, fits), tt);
            addressed = ap (λ m. m ∷ []) (own_mhr src_port dst_port hs hd mhr h checksum bytes);
            headed = own_headers src_port dst_port hs hd mhr h checksum bytes (id % 2 ^ 16) size hc;
            received = λ x.
                let room = length-replicate size x in
                rw sized at (
                  received src_port dst_port hs hd mhr h checksum bytes (replicate size x)
                    (id % 2 ^ 16) hc (omega (arith, room, sized)));
          },
          (
            (
              checksum,
              hc,
              record {
                rest = bytes ++ left;
                split =
                    written
                    ∙ append_assoc front bytes left
                    ∙ ap (λ bs. bs ++ (bytes ++ left)) (sym (append_assoc mhr iphc checksum))
                    ∙ append_assoc (mhr ++ iphc) checksum (bytes ++ left);
                size = length-write_at g.bytes g.len bytes ∙ v'.size;
                len = refl;
              },
            ),
            vs,
          ),
        )
