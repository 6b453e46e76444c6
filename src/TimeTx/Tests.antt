-- ===== src/TimeTx/Tests.antt =====
-- The packets of the experiment at concrete inputs.
use riot_playground.Common.{
  ℕ, ◌+◌, ◌-◌, ◌*◌, ◌≡◌, length, refl, List, [], ◌∷◌, ◌++◌, some, u32, arith, replicate,
  length-replicate,
}
use riot_playground.TimeTx.{
  Experiment, initial, run_ids, netdev2_send, total_len, exp_run, min_payload,
}
use riot_playground.TimeTx.Termination.{all_packets, exp_run_ends}
use riot_playground.TimeTx.Window.{packet, packets, netdev2_send-run_ids}

abbrev clock : ℕ → ℕ
clock id = 1000 + id * 50

-- A vector with a header of 30 bytes.
abbrev headers : List (List ℕ)
headers = replicate 30 1 ∷ []

packet_8 : packet 8 300 ≡ 44 ∷ 44 ∷ 44 ∷ 44 ∷ 8 ∷ 0 ∷ 0x2d ∷ 0x4e ∷ []
packet_8 = refl

netdev2_send-run_ids_example :
    let e' = run_ids clock 8 3 300 initial in
    let vector = headers ++ packet 8 300 ∷ [] in
    (e'.sent ≡ packets 8 3 300 ++ [])
    × (netdev2_send 0 17000 vector e'
        ≡ (2 * total_len vector, some (8, u32 (17000 + 4294967296 - clock 300))))
netdev2_send-run_ids_example =
    netdev2_send-run_ids clock 8 300 2 0 17000 headers initial (omega arith) (omega arith)
      (length-replicate {A = ℕ} 1232 0, length-replicate {A = ℕ} 16 0) (omega arith)

exp_run_ends_example :
    (e : Experiment) × (exp_run (λ size id. size * 1000 + id) ≡ some e)
    × (e.sent ≡ all_packets 154 min_payload)
    × (length e.sent ≡ 154000)
exp_run_ends_example = exp_run_ends (λ size id. size * 1000 + id)
