-- ===== src/TimeRx/Experiment/Ends.antt =====
-- The experiment ends, after all runs of all sizes.
use riot_playground.Common.{
  ℕ, zero, suc, ◌+◌, ◌*◌, ◌≤◌, ◌<◌, ◌≡◌, refl, ◌∙◌, List, [], ◌∷◌, true, false, some, ltb, u16,
  length, take, arith,
}
use riot_playground.TimeTx.{min_payload, max_payload, payload_step, exp_runs}
use riot_playground.TimeRx.{Frag, iphc_len, prepare_sixlowpan}
use riot_playground.TimeRx.Experiment.{exp_run_ids, exp_run_sizes, exp_run}
use riot_playground.TimeRx.Experiment.Delivered.{Carried, run, run_carries, reset-run}

-- The size and the number of `n` runs of a size, the first of them number `id`, with the newest
-- first, before those of `runs`.
unfoldable pub id_runs : ℕ → ℕ → ℕ → List (ℕ × ℕ) → List (ℕ × ℕ)
id_runs size zero id runs = runs
id_runs size (suc n) id runs = id_runs size n (id + 1) ((size, id) ∷ runs)

-- All runs of `k` sizes, the first of them `size`.
unfoldable pub all_runs : ℕ → ℕ → List (ℕ × ℕ) → List (ℕ × ℕ)
all_runs zero size runs = runs
all_runs (suc k) size runs = all_runs k (size + payload_step) (id_runs size exp_runs 0 runs)

length-id_runs :
    (size n id : ℕ) (runs : List (ℕ × ℕ)) → length (id_runs size n id runs) ≡ n + length runs
unfolding id_runs
length-id_runs size zero id runs = omega arith
length-id_runs size (suc n) id runs =
    omega (arith, length-id_runs size n (id + 1) ((size, id) ∷ runs))

pub length-all_runs :
    (k size : ℕ) (runs : List (ℕ × ℕ)) → length (all_runs k size runs) ≡ 1000 * k + length runs
unfolding all_runs
length-all_runs zero size runs = omega arith
length-all_runs (suc k) size runs = omega (
  arith,
  length-all_runs k (size + payload_step) (id_runs size exp_runs 0 runs),
  length-id_runs size exp_runs 0 runs,
)

-- The frames handed over are those of the runs, one by one.
abbrev pub CarryAll : List (List Frag) → List (ℕ × ℕ) → Type 0
CarryAll [] [] = Unit
CarryAll (fs ∷ handed) ((size, id) ∷ runs) = Carried size id fs × CarryAll handed runs
CarryAll (fs ∷ handed) [] = ⊥
CarryAll [] (r ∷ runs) = ⊥

module _ (iphc : ℕ) (least : 6 ≤ iphc) (most : iphc ≤ 9) where
  exp_run_ids-CarryAll :
      (size n id : ℕ) (handed : List (List Frag)) (runs : List (ℕ × ℕ))
      → 0 < size
      → size ≤ max_payload
      → CarryAll handed runs
      → let (fragmented, frag_buf) = prepare_sixlowpan iphc size in
        CarryAll (exp_run_ids iphc fragmented size n id frag_buf handed) (id_runs size n id runs)
  unfolding exp_run_ids id_runs
  exp_run_ids-CarryAll size zero id handed runs some_data fits h = h
  exp_run_ids-CarryAll size (suc n) id handed runs some_data fits h =
      let carried = run_carries iphc size id least most some_data fits in
      let fs = take (run iphc size id).0 (run iphc size id).1 in
      rw (reset-run iphc size id) (
        exp_run_ids-CarryAll size n (id + 1) (fs ∷ handed) ((size, id) ∷ runs) some_data fits
          (carried, h))

  exp_run_sizes_step :
      (f size : ℕ) (handed : List (List Frag))
      → size ≤ max_payload
      → let (fragmented, frag_buf) = prepare_sixlowpan iphc size in
        exp_run_sizes iphc (suc f) size handed
        ≡ exp_run_sizes iphc f
            (size + payload_step)
            (exp_run_ids iphc fragmented size exp_runs 0 frag_buf handed)
  unfolding exp_run_sizes
  exp_run_sizes_step f size handed small =
      let more : ltb 1232 size ≡ false = ground arith in
      let next : u16 (size + 8) ≡ size + 8 = omega arith in rw (more, next) refl

  exp_run_sizes_stop :
      (f size : ℕ) (handed : List (List Frag))
      → max_payload < size
      → exp_run_sizes iphc (suc f) size handed ≡ some handed
  unfolding exp_run_sizes
  exp_run_sizes_stop f size handed large =
      let last : ltb 1232 size ≡ true = ground arith in rw last refl

  -- When `k` sizes are left, and there is fuel for a turn more.
  exp_run_sizes_lem :
      (k f size : ℕ) (handed : List (List Frag)) (runs : List (ℕ × ℕ))
      → 0 < size
      → size + 8 * k ≡ 1240
      → k < f
      → CarryAll handed runs
      → (all : List (List Frag)) × (exp_run_sizes iphc f size handed ≡ some all)
        × CarryAll all (all_runs k size runs)
  unfolding all_runs
  exp_run_sizes_lem k zero size handed runs some_data left fuel h = absurd (omega arith)
  exp_run_sizes_lem zero (suc f) size handed runs some_data left fuel h =
      (handed, exp_run_sizes_stop f size handed (omega arith), h)
  exp_run_sizes_lem (suc k) (suc f) size handed runs some_data left fuel h =
      let h1 = exp_run_ids-CarryAll size exp_runs 0 handed runs some_data (omega arith) h in
      let (all, ends, carried) =
        exp_run_sizes_lem k f (size + 8) _ (id_runs size exp_runs 0 runs) (omega arith)
          (omega arith) (omega arith) h1 in
      (all, exp_run_sizes_step f size handed (omega arith) ∙ ends, carried)

pub iphc_len_bounds :
    (src_port dst_port : ℕ) → (6 ≤ iphc_len src_port dst_port) × (iphc_len src_port dst_port ≤ 9)
unfolding iphc_len
iphc_len_bounds src_port dst_port = ground arith

-- For any ports, the experiment ends after 154000 runs, which are 1000 for each payload size from 8
-- to 1232 bytes in steps of 8, in this order. The frames that each run hands over hold its payload
-- in order, every byte of it the low byte of the number of the run; there are at most 18 of them,
-- none is longer than a frame may be, and the offset of each that holds anything, in units of eight
-- bytes, is the place of its data in the datagram.
pub exp_run_carries :
    (src_port dst_port : ℕ)
    → (handed : List (List Frag)) × (exp_run (iphc_len src_port dst_port) ≡ some handed)
      × CarryAll handed (all_runs 154 min_payload [])
      × (length (all_runs 154 min_payload []) ≡ 154000)
unfolding exp_run
exp_run_carries src_port dst_port =
    let (least, most) = iphc_len_bounds src_port dst_port in
    let (handed, ends, carried) =
      exp_run_sizes_lem (iphc_len src_port dst_port) least most 154 155 8 [] [] (omega arith)
        (omega arith) (omega arith) tt in
    (handed, ends, carried, length-all_runs 154 8 [])
