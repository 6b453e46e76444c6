-- ===== src/TimeRx/Buffers/Tests.antt =====
-- The experiment at concrete inputs.
use mathlib.Core.List.{reverse}
use riot_playground.Common.{
  ℕ, ◌+◌, ◌-◌, ◌%◌, ◌^◌, ◌≡◌, refl, List, [], ◌∷◌, ◌++◌, some, length, replicate, arith,
  length-replicate, u8, u32,
}
use riot_playground.TimeTx.{min_payload}
use riot_playground.TimeRx.{iphc_len}
use riot_playground.TimeRx.Headers.{init_iphc}
use riot_playground.TimeRx.Experiment.Ends.{all_runs}
use riot_playground.TimeRx.Buffers.{Buffer, prepare_buffers, run_buffers}
use riot_playground.TimeRx.Buffers.Receiver.{receive_all}
use riot_playground.TimeRx.Buffers.Promise.{rfc}
use riot_playground.TimeRx.Buffers.Loop.{FrameHdr, mhr_of, no_frames, prepare_mhrs, exp_run}
use riot_playground.TimeRx.Buffers.Loop.Prepared.{
  mhrs_from, mhrs_from-HasLength, length-mhrs_from, prepare_mhrs-HasMhrs,
}
use riot_playground.TimeRx.Buffers.Loop.Ends.{DeliverAll, exp_run_delivers}
use riot_playground.TimeRx.Delivery.{
  Run, signalling, netdev_recv, answered, signal, wait, thread_turn, begin, Reach, begins, next,
  main, stack, signals, receives, waits,
}
use riot_playground.TimeRx.Delivery.Invariant.{given, first_time}
use riot_playground.TimeRx.Delivery.Whole.{whole_datagram}

-- The header of IEEE 802.15.4 for long addresses and both PAN identifiers.
abbrev frame_hdr : FrameHdr
frame_hdr src dst src_pan dst_pan seq =
    0x21 ∷ 0xcc ∷ u8 seq ∷ (dst_pan ++ (dst ++ (src_pan ++ src)))

mhr_len : (i : ℕ) → length (mhr_of frame_hdr i) ≡ 23
mhr_len i = refl

-- A sum of bytes in place of the Internet checksum.
abbrev sum_bytes : ℕ → List ℕ → ℕ
sum_bytes start [] = start
sum_bytes start (b ∷ bs) = sum_bytes (start + b) bs

abbrev with_len : ℕ → ℕ → ℕ
with_len sum udp_len = sum + udp_len

exp_run_delivers_example :
    (handed : List (List (List ℕ))) × (exp_run rfc sum_bytes with_len 1234 0xf0b3 frame_hdr
      ≡ some handed)
    × DeliverAll sum_bytes with_len 1234 0xf0b3
        (mhrs_from frame_hdr 18 0)
        handed
        (all_runs 154 min_payload [])
    × (length (all_runs 154 min_payload []) ≡ 154000)
exp_run_delivers_example =
    exp_run_delivers sum_bytes with_len frame_hdr 1234 0xf0b3 (omega arith) (omega arith) mhr_len

abbrev buffers : List Buffer
buffers = prepare_mhrs frame_hdr 0 no_frames

abbrev checksum : List ℕ
checksum = 0xab ∷ 0xcd ∷ []

-- Run 263 with 8 bytes.
abbrev written : ℕ × List Buffer
written =
    let (fragmented, prepared) = prepare_buffers rfc 1234 1234 8 buffers in
    run_buffers rfc 1234 1234 fragmented 263 checksum (replicate 8 (u8 263)) prepared

abbrev window : List ℕ
window = replicate 16 0

abbrev over : Run
over = wait 0 (netdev_recv 100 127 (answered (signal 0 (begin written.1 263 window)))).1

one_frame : written.0 ≡ 1
unfolding prepare_buffers run_buffers prepare_mhrs iphc_len init_iphc
one_frame = refl

run : Reach rfc 1234 1234 8 written.0 written.1 263 window over
unfolding begin signal wait netdev_recv prepare_buffers run_buffers prepare_mhrs iphc_len init_iphc
run =
    let first = next begins (main (signals 0 refl (omega (arith, one_frame)))) in
    let fetched = next first (stack (receives 100 127 refl (omega arith))) in
    next fetched (main (waits 0 refl (omega arith)))

through : over.sender ≡ signalling written.0
unfolding begin signal wait netdev_recv prepare_buffers run_buffers prepare_mhrs iphc_len init_iphc
through = refl

accepted : over.refused ≡ 0
unfolding begin signal wait netdev_recv prepare_buffers run_buffers prepare_mhrs iphc_len init_iphc
accepted = refl

whole_datagram_example :
    (receive_all (iphc_len 1234 1234) 8 (263 % 2 ^ 16) (reverse (given over.got)) (replicate 8 0xff)
      ≡ some (replicate 8 (u8 263)))
    × (thread_turn 900 (replicate 8 (u8 263)) over
        ≡ some (8, u32 (900 + 4294967296 - first_time over.got)))
whole_datagram_example =
    whole_datagram 1234 1234 (mhr_of frame_hdr 0) checksum (mhrs_from frame_hdr 17 1) 8 263 900 0xff
      buffers window over (omega arith) (omega arith) (omega arith) (omega arith) refl (mhr_len 0)
      (mhrs_from-HasLength frame_hdr mhr_len 17 1) (length-mhrs_from frame_hdr 17 1)
      (prepare_mhrs-HasMhrs frame_hdr mhr_len 18 0) (length-replicate {A = ℕ} 16 0) run through
      accepted
