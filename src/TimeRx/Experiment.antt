-- ===== src/TimeRx/Experiment.antt =====
-- stack_comparison/time_rx/gnrc/exp.c: the loops of `exp_run` over the sizes of the payload and the
-- runs. Each run fills the frames that the last one left, hands over those it has used, and resets
-- them.
pub mod Delivered
pub mod Ends
use riot_playground.Common.{
  ℕ, zero, suc, ◌+◌, List, [], ◌∷◌, Bool, Option, none, some, ltb, if◌then◌else◌, u8, u16,
  replicate, take,
}
use riot_playground.TimeTx.{min_payload, max_payload, payload_step, exp_runs}
use riot_playground.TimeRx.{Frag, fill, fill_single, prepare_sixlowpan, reset_frag_buf}

-- The frames of run `id`: how many are used, and all of them.
unfoldable pub fill_frames : Bool → ℕ → ℕ → List Frag → ℕ × List Frag
unfolding fill fill_single
fill_frames fragmented payload_size id frag_buf =
    let bytes = replicate payload_size (u8 id) in
    if fragmented then fill bytes frag_buf else fill_single bytes frag_buf

-- IPHC_LEN
module _ (iphc : ℕ) where
  -- The loop over the runs for `n` more of them, the first of them number `id`. `handed` holds the
  -- frames that the runs before have handed over, the newest run first.
  unfoldable pub exp_run_ids : Bool → ℕ → ℕ → ℕ → List Frag → List (List Frag) → List (List Frag)
  unfolding fill_frames reset_frag_buf
  exp_run_ids fragmented payload_size zero id frag_buf handed = handed
  exp_run_ids fragmented payload_size (suc n) id frag_buf handed =
      let (fragments, filled) = fill_frames fragmented payload_size id frag_buf in
      exp_run_ids fragmented payload_size n (id + 1) (reset_frag_buf iphc payload_size filled)
        (take fragments filled ∷ handed)

  -- The loop over the sizes from one on, which is a `uint16_t`, with fuel; `none` means that the fuel
  -- ran out.
  unfoldable pub exp_run_sizes : ℕ → ℕ → List (List Frag) → Option (List (List Frag))
  unfolding prepare_sixlowpan
  exp_run_sizes zero payload_size handed = none
  exp_run_sizes (suc f) payload_size handed =
      let (fragmented, frag_buf) = prepare_sixlowpan iphc payload_size in
      let rest =
        exp_run_sizes f (u16 (payload_size + payload_step))
          (exp_run_ids fragmented payload_size exp_runs 0 frag_buf handed) in
      if ltb max_payload payload_size then some handed else rest

  -- There are 154 sizes.
  unfoldable pub exp_run : Option (List (List Frag))
  unfolding exp_run_sizes
  exp_run = exp_run_sizes 155 min_payload []
