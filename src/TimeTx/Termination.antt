-- ===== src/TimeTx/Termination.antt =====
-- The experiment ends, when it has sent every packet of every size.
use riot_playground.Common.{
  ℕ, zero, suc, ◌+◌, ◌*◌, ◌≤◌, ◌<◌, ◌≡◌, refl, ◌∙◌, ap, sym, List, [], ◌∷◌, ◌++◌, some, ltb, true,
  false, u16, arith, length, length-append, length-replicate,
}
use mathlib.Core.List.{append_assoc, append-nil}
use riot_playground.TimeTx.{
  Experiment, max_payload, send_packet, run_ids, run_sizes, exp_run, exp_runs, initial,
  payload_step, min_payload,
}
use riot_playground.TimeTx.Window.{packet, packets, HasSizes, send_packet-HasSizes, sent-run_ids}

run_ids-HasSizes :
    (now : ℕ → ℕ) (size n id : ℕ) (e : Experiment) → HasSizes e → HasSizes (run_ids now size n id e)
unfolding run_ids
run_ids-HasSizes now size zero id e h = h
run_ids-HasSizes now size (suc n) id e h =
    run_ids-HasSizes now size n (id + 1) (send_packet size id (now id) e)
      (send_packet-HasSizes size id (now id) e h)

-- The packets of `k` sizes, the first of them `size`, with the newest first.
unfoldable pub all_packets : ℕ → ℕ → List (List ℕ)
all_packets zero size = []
all_packets (suc k) size = all_packets k (size + payload_step) ++ packets size exp_runs 0

length-packets : (size n id : ℕ) → length (packets size n id) ≡ n
unfolding packets
length-packets size zero id = refl
length-packets size (suc n) id =
    length-append (packets size n (id + 1)) (packet size id ∷ [])
    ∙ omega (arith, length-packets size n (id + 1))

length-all_packets : (k size : ℕ) → length (all_packets k size) ≡ 1000 * k
unfolding all_packets
length-all_packets zero size = refl
length-all_packets (suc k) size =
    length-append (all_packets k (size + payload_step)) (packets size exp_runs 0)
    ∙ omega (arith, length-all_packets k (size + payload_step), length-packets size exp_runs 0)

run_sizes_step :
    (now : ℕ → ℕ → ℕ) (f size : ℕ) (e : Experiment)
    → size ≤ max_payload
    → run_sizes now (suc f) size e
      ≡ run_sizes now f (size + payload_step) (run_ids (now size) size exp_runs 0 e)
unfolding run_sizes
run_sizes_step now f size e small =
    let more : ltb 1232 size ≡ false = ground arith in
    let next : u16 (size + 8) ≡ size + 8 = omega arith in rw (more, next) refl

run_sizes_stop :
    (now : ℕ → ℕ → ℕ) (f size : ℕ) (e : Experiment)
    → max_payload < size
    → run_sizes now (suc f) size e ≡ some e
unfolding run_sizes
run_sizes_stop now f size e large = let last : ltb 1232 size ≡ true = ground arith in rw last refl

-- When `k` sizes are left, and there is fuel for a turn more.
run_sizes_lem :
    (now : ℕ → ℕ → ℕ) (k f size : ℕ) (e : Experiment)
    → 5 ≤ size
    → size + 8 * k ≡ 1240
    → k < f
    → HasSizes e
    → (e' : Experiment) × (run_sizes now f size e ≡ some e')
      × (e'.sent ≡ all_packets k size ++ e.sent)
unfolding all_packets
run_sizes_lem now k zero size e least left fuel h = absurd (omega arith)
run_sizes_lem now zero (suc f) size e least left fuel h =
    (e, run_sizes_stop now f size e (omega arith), refl)
run_sizes_lem now (suc k) (suc f) size e least left fuel h =
    let e1 = run_ids (now size) size exp_runs 0 e in
    let (e', ends, sent) =
      run_sizes_lem now k f (size + 8) e1 (omega arith) (omega arith) (omega arith)
        (run_ids-HasSizes (now size) size exp_runs 0 e h) in
    let sent1 = sent-run_ids (now size) size exp_runs 0 e least (omega arith) h in
    (
      e',
      run_sizes_step now f size e (omega arith) ∙ ends,
      sent
          ∙ ap (λ ps. all_packets k (size + 8) ++ ps) sent1
          ∙ sym (append_assoc (all_packets k (size + 8)) (packets size exp_runs 0) e.sent),
    )

-- The experiment ends, whatever the clock shows: it has then sent 154000 packets, which are 1000 for
-- each payload size from 8 to 1232 bytes in steps of 8, in this order, each with its number and size.
pub exp_run_ends :
    (now : ℕ → ℕ → ℕ)
    → (e : Experiment) × (exp_run now ≡ some e)
      × (e.sent ≡ all_packets 154 min_payload)
      × (length e.sent ≡ 154000)
unfolding exp_run
exp_run_ends now =
    let sizes : HasSizes initial =
      (length-replicate {A = ℕ} 1232 0, length-replicate {A = ℕ} 16 0) in
    let (e, ends, sent) =
      run_sizes_lem now 154 155 8 initial (omega arith) (omega arith) (omega arith) sizes in
    let all = sent ∙ append-nil (all_packets 154 8) in
    (e, ends, all, ap length all ∙ length-all_packets 154 8)
