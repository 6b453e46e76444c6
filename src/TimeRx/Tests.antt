-- ===== src/TimeRx/Tests.antt =====
-- The theorems on the fragments at concrete inputs.
use riot_playground.Common.{
  ℕ, ◌+◌, ◌/◌, ◌%◌, ◌^◌, ◌≡◌, ◌≢◌, ◌↔◌, ◌⊎◌, refl, List, [], ◌∷◌, ◌++◌, drop, some, arith, length,
  replicate, length-replicate, All,
}
use riot_playground.TimeRx.{Frag, frames, iphc_len, nhc_ports, reset_frag_buf, prepare_sixlowpan}
use riot_playground.TimeRx.Experiment.{exp_run}
use riot_playground.TimeRx.Experiment.Ends.{all_runs, CarryAll, exp_run_carries}
use riot_playground.TimeRx.Headers.{
  Constants, init_frag1, init_fragn, set_tag, init_iphc, set_chksum, init_udp,
}
use riot_playground.TimeRx.Headers.Decode.{decode_frag, decode_frag-set_tag, set_chksum-init_iphc}
use riot_playground.TimeRx.Headers.Checksum.{word, udp_sum, init_udp_lem}
use riot_playground.TimeRx.Lwip.{frames_lwip, CompressedPlaced, frames_lwip_hold}
use riot_playground.TimeRx.Reset.{reset_frag_buf-frames}
use riot_playground.TimeRx.Ports.{decode_ports, decode_ports-nhc_ports}
use riot_playground.TimeRx.Fragments.{joined, FitsFrame, AllPlaced, frames_hold}

ports_read :
    (decode_ports (nhc_ports 1234 0xf0b3) ≡ some (1234, 0xf0b3))
    × (2 + length (nhc_ports 1234 0xf0b3) + 2 ≡ iphc_len 1234 0xf0b3)
ports_read = decode_ports-nhc_ports 1234 0xf0b3 (omega arith) (omega arith)

-- 200 bytes need three frames.
abbrev bytes : List ℕ
bytes = replicate 200 7

frames_run : let fs = (frames 9 bytes).1 in (joined fs ≡ bytes) × All FitsFrame fs × AllPlaced fs
frames_run =
    frames_hold 9 bytes (omega arith) (omega arith) (omega (arith, length-replicate {A = ℕ} 200 7))
      (omega (arith, length-replicate {A = ℕ} 200 7))

reset_run :
    reset_frag_buf 9 (length bytes) (frames 9 bytes).1 ≡ (prepare_sixlowpan 9 (length bytes)).1
reset_run = reset_frag_buf-frames 9 bytes

abbrev constants : Constants
constants = record {
  frag_1_disp = 0xc0;
  frag_n_disp = 0xe0;
  iphc1_disp = 0x60;
  iphc1_tf = 0x18;
  iphc1_nh = 0x04;
  iphc2_sam = 0x30;
  iphc2_dam = 0x03;
}

tags_read :
    (decode_frag (set_tag 70000 (init_frag1 constants 1280 0)) ≡ some (1280, 70000 % 2 ^ 16, 0))
    × (decode_frag (set_tag 70000 (init_fragn constants 1280 0 136))
        ≡ some (1280, 70000 % 2 ^ 16, 136 / 8))
tags_read = decode_frag-set_tag constants 1280 0 70000 136 refl refl (omega arith) (omega arith)

abbrev mhr : List ℕ
mhr = replicate 23 0xaa

checksum_stored :
    let before = mhr ++ init_iphc constants 1234 1234 in
    (set_chksum (iphc_len 1234 1234) (0xab ∷ 0xcd ∷ []) (before ++ 7 ∷ 9 ∷ [])
      ≡ before ++ 0xab ∷ 0xcd ∷ [])
    × (decode_ports (drop (length mhr + 2) before) ≡ some (1234, 1234))
checksum_stored =
    set_chksum-init_iphc constants 1234 1234 7 9 0xab 0xcd mhr (omega arith) (omega arith)

-- A sum of bytes in place of the Internet checksum.
abbrev sum_bytes : ℕ → List ℕ → ℕ
sum_bytes start [] = start
sum_bytes start (b ∷ bs) = sum_bytes (start + b) bs

abbrev with_len : ℕ → ℕ → ℕ
with_len sum udp_len = sum + udp_len

init_udp_lem_example :
    let h = init_udp sum_bytes with_len 1234 5683 bytes in
    let sum = udp_sum sum_bytes with_len 1234 5683 bytes in
    (word h 0 ≡ 1234)
    × (word h 2 ≡ 5683)
    × (word h 4 ≡ length bytes + 8)
    × (sum ≢ 0 → sum + word h 6 ≡ 65535)
    × ((word h 6 ≡ 0) ↔ ((sum ≡ 0) ⊎ (sum ≡ 65535)))
init_udp_lem_example =
    init_udp_lem sum_bytes with_len 1234 5683 bytes (omega arith) (omega arith)
      (omega (arith, length-replicate {A = ℕ} 200 7))

lwip_run :
    let fs = (frames_lwip 9 bytes).1 in
    (joined fs ≡ bytes) × All FitsFrame fs × CompressedPlaced 9 fs
lwip_run =
    frames_lwip_hold 9 bytes (omega arith) (omega arith)
      (omega (arith, length-replicate {A = ℕ} 200 7))
      (omega (arith, length-replicate {A = ℕ} 200 7))

experiment_carries :
    (handed : List (List Frag)) × (exp_run (iphc_len 1234 1234) ≡ some handed)
    × CarryAll handed (all_runs 154 8 [])
    × (length (all_runs 154 8 []) ≡ 154000)
experiment_carries = exp_run_carries 1234 1234
