-- ===== src/TimeRx/Buffers/Loop/Ends.antt =====
-- The experiment ends, and every run hands over its datagram.
use riot_playground.Common.{
  ℕ, zero, suc, ◌+◌, ◌*◌, ◌^◌, ◌≤◌, ◌<◌, ◌≡◌, refl, sym, ◌∙◌, List, [], ◌∷◌, ◌++◌, Bool, true,
  false, Option, some, ltb, if◌then◌else◌, u8, u16, length, replicate, arith, All,
}
use mathlib.Core.Path.{subst}
use riot_playground.TimeTx.{min_payload, max_payload, payload_step, exp_runs}
use riot_playground.TimeRx.{iphc_len, is_fragmented}
use riot_playground.TimeRx.Experiment.Ends.{id_runs, all_runs, length-all_runs, iphc_len_bounds}
use riot_playground.TimeRx.Headers.{init_iphc, init_udp}
use riot_playground.TimeRx.Buffers.{Buffer, prepare_buffers}
use riot_playground.TimeRx.Buffers.Mhrs.{HasMhrs}
use riot_playground.TimeRx.Buffers.Promise.{rfc, Delivers, HasLength}
use riot_playground.TimeRx.Buffers.Loop.{
  FrameHdr, mhr_of, no_frames, prepare_mhrs, checksum_of, each_id, one_size, each_size, exp_run,
}
use riot_playground.TimeRx.Buffers.Loop.Prepared.{
  IsPrepared, prepare_buffers-IsPrepared, IsPrepared-HasMhrs, run-IsPrepared, mhrs_from,
  length-mhrs_from, mhrs_from-HasLength, prepare_mhrs-HasMhrs,
}

module _ (inet_csum : ℕ → List ℕ → ℕ) (pseudo_csum : ℕ → ℕ → ℕ) (src_port dst_port : ℕ) where
  -- What the run hands over, for a size and a number.
  abbrev pub DeliversRun : List (List ℕ) → ℕ → ℕ → List (List ℕ) → Type 0
  DeliversRun mhrs size id handed =
      Delivers mhrs
        (init_iphc rfc src_port dst_port
          ++ checksum_of rfc inet_csum pseudo_csum src_port dst_port (replicate size (u8 id)))
        (iphc_len src_port dst_port) size id handed

  -- The frames handed over are those of the runs, one by one.
  abbrev pub DeliverAll : List (List ℕ) → List (List (List ℕ)) → List (ℕ × ℕ) → Type 0
  DeliverAll mhrs [] [] = Unit
  DeliverAll mhrs (handed ∷ all) ((size, id) ∷ runs) =
      DeliversRun mhrs size id handed × DeliverAll mhrs all runs
  DeliverAll mhrs (handed ∷ all) [] = ⊥
  DeliverAll mhrs [] (r ∷ runs) = ⊥

  length-checksum :
      (bytes : List ℕ) → length (checksum_of rfc inet_csum pseudo_csum src_port dst_port bytes) ≡ 2
  unfolding init_udp
  length-checksum bytes = refl

  module _ (hs : src_port < 2 ^ 16) (hd : dst_port < 2 ^ 16) (mhr : List ℕ) (mhrs : List (List ℕ))
      (h : length mhr ≡ 23) (hall : All (HasLength 23) mhrs) (many : length mhrs ≡ 17) where
    each_id-DeliverAll :
        (b : Bool) (size n id : ℕ) (fs : List Buffer) (all : List (List (List ℕ)))
        (runs : List (ℕ × ℕ))
        → is_fragmented (iphc_len src_port dst_port) size ≡ b
        → 0 < size
        → size ≤ 1232
        → IsPrepared src_port dst_port hs hd b mhr mhrs size fs
        → DeliverAll (mhr ∷ mhrs) all runs
        → let (fs', all') =
            each_id rfc inet_csum pseudo_csum src_port dst_port b size n id fs all in
          IsPrepared src_port dst_port hs hd b mhr mhrs size fs'
          × DeliverAll (mhr ∷ mhrs) all' (id_runs size n id runs)
    unfolding each_id id_runs
    each_id-DeliverAll b size zero id fs all runs e some_data fits v d = (v, d)
    each_id-DeliverAll b size (suc n) id fs all runs e some_data fits v d =
        let bytes = replicate size (u8 id) in
        let checksum = checksum_of rfc inet_csum pseudo_csum src_port dst_port bytes in
        let (delivers, v') =
          run-IsPrepared src_port dst_port hs hd b mhr checksum mhrs size id fs e some_data fits
            (length-checksum bytes) h hall many (iphc_len_bounds src_port dst_port) v in
        each_id-DeliverAll b size n (id + 1) _ _ ((size, id) ∷ runs) e some_data fits v'
          (delivers, d)

    -- The runs of a size, from buffers that were prepared for it.
    prepared-DeliverAll :
        (b : Bool) (size n : ℕ) (prepared : List Buffer) (all : List (List (List ℕ)))
        (runs : List (ℕ × ℕ))
        → 0 < size
        → size ≤ 1232
        → (b ≡ is_fragmented (iphc_len src_port dst_port) size)
          × IsPrepared src_port dst_port hs hd
              (is_fragmented (iphc_len src_port dst_port) size)
              mhr
              mhrs
              size
              prepared
        → DeliverAll (mhr ∷ mhrs) all runs
        → let (fs', all') =
            each_id rfc inet_csum pseudo_csum src_port dst_port b size n 0 prepared all in
          HasMhrs (mhr ∷ mhrs) fs' × DeliverAll (mhr ∷ mhrs) all' (id_runs size n 0 runs)
    prepared-DeliverAll b size n prepared all runs some_data fits (same, ready) d =
        let ready' =
          subst (λ b'. IsPrepared src_port dst_port hs hd b' mhr mhrs size prepared) (sym same)
            ready in
        let (v', d') =
          each_id-DeliverAll b size n 0 prepared all runs (sym same) some_data fits ready' d in
        (IsPrepared-HasMhrs src_port dst_port hs hd b mhr mhrs size _ h hall v', d')

    -- A size, from buffers that have their MAC headers.
    one_size-DeliverAll :
        (size : ℕ) (fs : List Buffer) (all : List (List (List ℕ))) (runs : List (ℕ × ℕ))
        → 0 < size
        → size ≤ 1232
        → HasMhrs (mhr ∷ mhrs) fs
        → DeliverAll (mhr ∷ mhrs) all runs
        → let (fs', all') = one_size rfc inet_csum pseudo_csum src_port dst_port size fs all in
          HasMhrs (mhr ∷ mhrs) fs' × DeliverAll (mhr ∷ mhrs) all' (id_runs size exp_runs 0 runs)
    unfolding one_size
    one_size-DeliverAll size fs all runs some_data fits v d =
        let most = (iphc_len_bounds src_port dst_port).1 in
        let (fragmented, prepared) = prepare_buffers rfc src_port dst_port size fs in
        prepared-DeliverAll fragmented size exp_runs prepared all runs some_data fits
          (prepare_buffers-IsPrepared src_port dst_port hs hd mhr mhrs size fs most v) d

  each_size_step :
      (f size : ℕ) (fs : List Buffer) (all : List (List (List ℕ)))
      → size ≤ max_payload
      → let (fs', all') = one_size rfc inet_csum pseudo_csum src_port dst_port size fs all in
        each_size rfc inet_csum pseudo_csum src_port dst_port (suc f) size fs all
        ≡ each_size rfc inet_csum pseudo_csum src_port dst_port f (size + payload_step) fs' all'
  unfolding each_size
  each_size_step f size fs all small =
      cut_step size small (one_size rfc inet_csum pseudo_csum src_port dst_port size fs all)
    where
      cut_step :
          (size : ℕ)
          → size ≤ 1232
          → (out : List Buffer × List (List (List ℕ)))
          → (if ltb 1232 size
              then some all
              else each_size rfc inet_csum pseudo_csum src_port dst_port f
                  (u16 (size + 8))
                  out.0
                  out.1)
            ≡ each_size rfc inet_csum pseudo_csum src_port dst_port f (size + 8) out.0 out.1
      cut_step size small out =
          let more : ltb 1232 size ≡ false = ground arith in
          let next : u16 (size + 8) ≡ size + 8 = omega arith in rw (more, next) refl

  each_size_stop :
      (f size : ℕ) (fs : List Buffer) (all : List (List (List ℕ)))
      → max_payload < size
      → each_size rfc inet_csum pseudo_csum src_port dst_port (suc f) size fs all ≡ some all
  unfolding each_size
  each_size_stop f size fs all large = cut_stop size large _
    where
      cut_stop :
          (size : ℕ)
          → 1232 < size
          → (rest : Option (List (List (List ℕ))))
          → (if ltb 1232 size then some all else rest) ≡ some all
      cut_stop size large rest = let last : ltb 1232 size ≡ true = ground arith in rw last refl

  module _ (hs : src_port < 2 ^ 16) (hd : dst_port < 2 ^ 16) (mhr : List ℕ) (mhrs : List (List ℕ))
      (h : length mhr ≡ 23) (hall : All (HasLength 23) mhrs) (many : length mhrs ≡ 17) where
    -- When `k` sizes are left, and there is fuel for a turn more.
    each_size-DeliverAll :
        (k f size : ℕ) (fs : List Buffer) (all : List (List (List ℕ))) (runs : List (ℕ × ℕ))
        → 0 < size
        → size + 8 * k ≡ 1240
        → k < f
        → HasMhrs (mhr ∷ mhrs) fs
        → DeliverAll (mhr ∷ mhrs) all runs
        → (all' : List (List (List ℕ))) × (each_size rfc inet_csum pseudo_csum src_port dst_port f
              size fs all
            ≡ some all')
          × DeliverAll (mhr ∷ mhrs) all' (all_runs k size runs)
    unfolding all_runs
    each_size-DeliverAll k zero size fs all runs some_data left fuel v d = absurd (omega arith)
    each_size-DeliverAll zero (suc f) size fs all runs some_data left fuel v d =
        (all, each_size_stop f size fs all (omega arith), d)
    each_size-DeliverAll (suc k) (suc f) size fs all runs some_data left fuel v d =
        let (v', d') =
          one_size-DeliverAll hs hd mhr mhrs h hall many size fs all runs some_data (omega arith) v
            d in
        let (all', ends, d2) =
          each_size-DeliverAll k f (size + 8) _ _ (id_runs size exp_runs 0 runs) (omega arith)
            (omega arith) (omega arith) v' d' in
        (all', each_size_step f size fs all (omega arith) ∙ ends, d2)

-- For ports of 16 bits, any Internet checksum, MAC headers of 23 bytes, and the constants of RFC 4944
-- and RFC 6282, the experiment ends after 154000 runs, which are 1000 for each payload size from 8 to
-- 1232 bytes in steps of 8, in this order, each of which starts from the buffers as the last one left
-- them. Every run hands over at most 18 frames of at most 125 bytes, each with the MAC header of its
-- buffer. A receiver of RFC 4944 accepts them all, a single one as a whole datagram and several as
-- parts of one, the tag of which is the number of the run, and puts them together to the payload,
-- every byte of it the low byte of the number of the run, whatever its own buffer was filled with
-- before. Behind the MAC header, or that of the fragment, the first frame has the compressed headers,
-- the last two bytes of which are the checksum of the UDP header for this payload.
pub exp_run_delivers :
    (inet_csum : ℕ → List ℕ → ℕ) (pseudo_csum : ℕ → ℕ → ℕ) (frame_hdr : FrameHdr)
    (src_port dst_port : ℕ)
    → src_port < 2 ^ 16
    → dst_port < 2 ^ 16
    → ((i : ℕ) → length (mhr_of frame_hdr i) ≡ 23)
    → (handed : List (List (List ℕ))) × (exp_run rfc inet_csum pseudo_csum src_port dst_port
          frame_hdr
        ≡ some handed)
      × DeliverAll inet_csum pseudo_csum src_port dst_port
          (mhrs_from frame_hdr 18 0)
          handed
          (all_runs 154 min_payload [])
      × (length (all_runs 154 min_payload []) ≡ 154000)
unfolding exp_run
exp_run_delivers inet_csum pseudo_csum frame_hdr src_port dst_port hs hd mhr_len =
    let (handed, ends, d) =
      each_size-DeliverAll inet_csum pseudo_csum src_port dst_port hs hd (mhr_of frame_hdr 0)
        (mhrs_from frame_hdr 17 1) (mhr_len 0) (mhrs_from-HasLength frame_hdr mhr_len 17 1)
        (length-mhrs_from frame_hdr 17 1) 154 155 8 (prepare_mhrs frame_hdr 0 no_frames) [] []
        (omega arith) (omega arith) (omega arith) (prepare_mhrs-HasMhrs frame_hdr mhr_len 18 0)
        tt in
    (handed, ends, d, length-all_runs 154 8 [])
