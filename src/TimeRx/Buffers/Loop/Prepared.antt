-- ===== src/TimeRx/Buffers/Loop/Prepared.antt =====
-- The buffers for a size, whether in one frame or in several, from one size to the next.
use riot_playground.Common.{
  ℕ, zero, suc, ◌+◌, ◌-◌, ◌*◌, ◌/◌, ◌^◌, ◌≤◌, ◌<◌, ◌≡◌, refl, ap, ◌∙◌, List, [], ◌∷◌, ◌++◌, Bool,
  true, false, map, length, take, drop, replicate, arith, length-replicate, length-write_at, u8,
  All, Bool-cases, inl, inr,
}
use riot_playground.TimeRx.{iphc_len, is_fragmented}
use riot_playground.TimeRx.Headers.{init_iphc}
use riot_playground.TimeRx.Buffers.{Buffer, content, prepare_buffers, run_buffers, reset_buffers}
use riot_playground.TimeRx.Buffers.Filling.{StandAll}
use mathlib.Core.List.{append_assoc}
use riot_playground.TimeRx.Buffers.Mhrs.{HasMhrs, disp_of}
use riot_playground.TimeRx.Buffers.Preparing.{
  slots_others, prepare_first-Stands, prepare_others-StandAll,
}
use riot_playground.TimeRx.Buffers.Storing.{HasMhr-Stands}
use riot_playground.TimeRx.Buffers.Promise.{rfc, Delivers, HasLength}
use riot_playground.TimeRx.Buffers.Headed.{Ready}
use riot_playground.TimeRx.Buffers.Runs.{run_fragmented}
use riot_playground.TimeRx.Buffers.Single.{prepare_single-IsSingle}
use riot_playground.TimeRx.Buffers.SingleRuns.{SingleReady, run_single}
use riot_playground.TimeRx.Buffers.Receiver.{placed_piece}
use riot_playground.TimeRx.Buffers.Loop.{FrameHdr, mhr_of, prepare_mhrs}

module _ (src_port dst_port : ℕ) (hs : src_port < 2 ^ 16) (hd : dst_port < 2 ^ 16) where
  -- The buffers for a payload of `size` bytes in several frames or in one.
  abbrev pub IsPrepared : Bool → List ℕ → List (List ℕ) → ℕ → List Buffer → Type 0
  IsPrepared true mhr mhrs size fs = Ready src_port dst_port hs hd mhr mhrs size fs
  IsPrepared false mhr mhrs size fs = SingleReady src_port dst_port hs hd mhr mhrs fs

  pub prepare_buffers-IsPrepared :
      (mhr : List ℕ) (mhrs : List (List ℕ)) (size : ℕ) (fs : List Buffer)
      → iphc_len src_port dst_port ≤ 9
      → HasMhrs (mhr ∷ mhrs) fs
      → let (fragmented, out) = prepare_buffers rfc src_port dst_port size fs in
        (fragmented ≡ is_fragmented (iphc_len src_port dst_port) size)
        × IsPrepared (is_fragmented (iphc_len src_port dst_port) size) mhr mhrs size out
  unfolding prepare_buffers
  prepare_buffers-IsPrepared mhr mhrs size [] most h = absurd h
  prepare_buffers-IsPrepared mhr mhrs size (f ∷ fs) most (h, hs') =
      let k = iphc_len src_port dst_port in
      elim (Bool-cases (is_fragmented k size)) [
        | inl e ↦
            let (two, h2, v) = prepare_first-Stands rfc src_port dst_port hs hd mhr size f most h in
            let off = (125 - 23 - 4 - k + 48) / 8 * 8 in
            let others =
              prepare_others-StandAll rfc src_port dst_port hs hd mhrs size off fs most hs' in
            rw e (refl, (two, h2, (v, others)))
        | inr e ↦ rw e (refl, (prepare_single-IsSingle src_port dst_port hs hd mhr f most h, hs'))
      ]

  others-HasMhrs :
      (mhrs : List (List ℕ)) (size offset : ℕ) (fs : List Buffer)
      → All (HasLength 23) mhrs
      → StandAll (slots_others rfc src_port dst_port hs hd mhrs size offset) fs
      → HasMhrs mhrs fs
  others-HasMhrs [] size offset [] h v = tt
  others-HasMhrs [] size offset (f ∷ fs) h v = v
  others-HasMhrs (mhr ∷ mhrs) size offset [] h v = v
  others-HasMhrs (mhr ∷ mhrs) size offset (f ∷ fs) (h, hs') (v, vs) = (
    HasMhr-Stands mhr (disp_of 0xe0 (size + 48)) _ f h refl v,
    others-HasMhrs mhrs size (offset + 96) fs hs' vs,
  )

  -- They have their MAC headers still.
  pub IsPrepared-HasMhrs :
      (b : Bool) (mhr : List ℕ) (mhrs : List (List ℕ)) (size : ℕ) (fs : List Buffer)
      → length mhr ≡ 23
      → All (HasLength 23) mhrs
      → IsPrepared b mhr mhrs size fs
      → HasMhrs (mhr ∷ mhrs) fs
  IsPrepared-HasMhrs true mhr mhrs size [] h hall (two, h2, v) = absurd v
  IsPrepared-HasMhrs true mhr mhrs size (f ∷ fs) h hall (two, h2, (v, vs)) = (
    HasMhr-Stands mhr (disp_of 0xc0 (size + 48)) _ f h refl v,
    others-HasMhrs mhrs size ((125 - 23 - 4 - iphc_len src_port dst_port + 48) / 8 * 8) fs hall vs,
  )
  IsPrepared-HasMhrs false mhr mhrs size [] h hall v = absurd v
  IsPrepared-HasMhrs false mhr mhrs size (f ∷ fs) h hall ((two, h2, v), vs) =
      let iphc = init_iphc rfc src_port dst_port in
      (
        record {
          rest = iphc ++ (two ++ v.rest);
          split = v.split ∙ append_assoc mhr iphc (two ++ v.rest);
          mhr_len = h;
          size = v.size;
        },
        vs,
      )

  -- A run, whether in several frames or in one.
  pub run-IsPrepared :
      (b : Bool) (mhr checksum : List ℕ) (mhrs : List (List ℕ)) (size id : ℕ) (fs : List Buffer)
      → is_fragmented (iphc_len src_port dst_port) size ≡ b
      → 0 < size
      → size ≤ 1232
      → length checksum ≡ 2
      → length mhr ≡ 23
      → All (HasLength 23) mhrs
      → length mhrs ≡ 17
      → (6 ≤ iphc_len src_port dst_port) × (iphc_len src_port dst_port ≤ 9)
      → IsPrepared b mhr mhrs size fs
      → let (used, out) =
          run_buffers rfc src_port dst_port b id checksum (replicate size (u8 id)) fs in
        Delivers
          (mhr ∷ mhrs)
          (init_iphc rfc src_port dst_port ++ checksum)
          (iphc_len src_port dst_port)
          size
          id
          (map content (take used out))
        × IsPrepared b mhr mhrs size (reset_buffers rfc src_port dst_port size out)
  run-IsPrepared true mhr checksum mhrs size id fs e some_data fits hc h hall many bounds v =
      run_fragmented src_port dst_port hs hd mhr checksum mhrs size id fs some_data fits hc h hall
        many bounds e v
  run-IsPrepared false mhr checksum mhrs size id fs e some_data fits hc h hall many bounds v =
      run_single src_port dst_port hs hd mhr checksum mhrs size id fs hc h bounds.1 e v

-- The MAC headers of `n` buffers from number `i` on.
abbrev pub mhrs_from : FrameHdr → ℕ → ℕ → List (List ℕ)
mhrs_from frame_hdr zero i = []
mhrs_from frame_hdr (suc n) i = mhr_of frame_hdr i ∷ mhrs_from frame_hdr n (i + 1)

pub length-mhrs_from : (frame_hdr : FrameHdr) (n i : ℕ) → length (mhrs_from frame_hdr n i) ≡ n
length-mhrs_from frame_hdr zero i = refl
length-mhrs_from frame_hdr (suc n) i = ap suc (length-mhrs_from frame_hdr n (i + 1))

module _ (frame_hdr : FrameHdr) (mhr_len : (i : ℕ) → length (mhr_of frame_hdr i) ≡ 23) where
  pub mhrs_from-HasLength : (n i : ℕ) → All (HasLength 23) (mhrs_from frame_hdr n i)
  mhrs_from-HasLength zero i = tt
  mhrs_from-HasLength (suc n) i = (mhr_len i, mhrs_from-HasLength n (i + 1))

  pub prepare_mhrs-HasMhrs :
      (n i : ℕ)
      → HasMhrs
          (mhrs_from frame_hdr n i)
          (prepare_mhrs frame_hdr i (replicate n (record { bytes = replicate 125 0; len = 0 })))
  unfolding prepare_mhrs
  prepare_mhrs-HasMhrs zero i = tt
  prepare_mhrs-HasMhrs (suc n) i =
      let zeros : List ℕ = replicate 125 0 in
      let mhr = mhr_of frame_hdr i in
      let sized = length-replicate {A = ℕ} 125 0 in
      (
        record {
          rest = drop (length mhr) zeros;
          split = placed_piece [] mhr zeros 0 (λ some_here. refl) (omega (arith, mhr_len i, sized));
          mhr_len = mhr_len i;
          size = length-write_at zeros 0 mhr ∙ sized;
        },
        prepare_mhrs-HasMhrs n (i + 1),
      )
