-- ===== src/TimeRx/Delivery/Whole.antt =====
-- The bytes of a run, from the buffers through both threads to the datagram and the line for it.
use mathlib.Core.Path.{subst}
use mathlib.Core.List.{reverse, reverse-cons}
use Prim.Native.Nat.{min}
use riot_playground.Common.{
  ℕ, zero, suc, ◌+◌, ◌-◌, ◌%◌, ◌^◌, ◌≤◌, ◌<◌, ◌≡◌, refl, sym, ap, ◌∙◌, List, [], ◌∷◌, ◌++◌, Bool,
  true, false, map, Option, none, some, ◌*◌, ◌/◌, ◌==◌, Bool-cases, inl, inr, length, take, drop,
  get_or, replicate, arith, length-replicate, length-take, u8, u32, All,
}
use riot_playground.TimeRx.{iphc_len}
use riot_playground.TimeRx.Headers.{init_iphc}
use riot_playground.TimeRx.Buffers.{
  Buffer, content, prepare_buffers, run_buffers, fill_buffers, store_chksum,
}
use riot_playground.TimeRx.Buffers.Receiver.{receive_all}
use riot_playground.TimeRx.Buffers.Mhrs.{HasMhrs}
use riot_playground.TimeRx.Buffers.Promise.{rfc, Delivers, HasLength}
use riot_playground.TimeRx.Buffers.Loop.Prepared.{
  IsPrepared, prepare_buffers-IsPrepared, run-IsPrepared,
}
use riot_playground.TimeRx.Experiment.Ends.{iphc_len_bounds}
use riot_playground.TimeRx.Delivery.{Run, signalling, frame, thread_turn, Reach}
use riot_playground.TimeRx.Delivery.Invariant.{given, first_time, first_frames}
use riot_playground.TimeRx.Delivery.Order.{delivered}

take-last :
    (fs : List Buffer) (n : ℕ)
    → n < length fs
    → map content (take n fs) ++ (frame fs n ∷ []) ≡ map content (take (suc n) fs)
take-last [] n h = absurd (omega arith)
take-last (f ∷ fs) zero h = refl
take-last (f ∷ fs) (suc n) h = ap (λ gs. content f ∷ gs) (take-last fs n (omega arith))

-- The frames in the order in which they were given.
reverse-first_frames :
    (fs : List Buffer) (n : ℕ)
    → n ≤ length fs
    → reverse (first_frames fs n) ≡ map content (take n fs)
reverse-first_frames fs zero h = refl
reverse-first_frames fs (suc n) h =
    reverse-cons (frame fs n) (first_frames fs n)
    ∙ ap (λ gs. gs ++ (frame fs n ∷ [])) (reverse-first_frames fs n (omega arith))
    ∙ take-last fs n (omega arith)

length-contents : (fs : List Buffer) → length (map content fs) ≡ length fs
length-contents [] = refl
length-contents (f ∷ fs) = ap suc (length-contents fs)

fill_buffers-used :
    (id : ℕ) (rest : List ℕ) (fs : List Buffer)
    → (fill_buffers id rest fs).0 ≤ length (fill_buffers id rest fs).1
unfolding fill_buffers
fill_buffers-used id rest [] = omega arith
fill_buffers-used id rest (f ∷ fs) = elim (Bool-cases (length rest == 0)) [
  | inl e ↦ rw e (
      omega
        (arith, fill_buffers-used id (drop (min ((125 - f.len) / 8 * 8) (length rest)) rest) fs))
  | inr e ↦ rw e (
      omega
        (arith, fill_buffers-used id (drop (min ((125 - f.len) / 8 * 8) (length rest)) rest) fs))
]

-- No more frames are counted than there are.
run_buffers-used :
    (src_port dst_port : ℕ) (b : Bool) (id : ℕ) (checksum bytes : List ℕ) (fs : List Buffer)
    → let (used, out) = run_buffers rfc src_port dst_port b id checksum bytes fs in
      used ≤ length out
unfolding run_buffers store_chksum
run_buffers-used src_port dst_port b id checksum bytes [] = omega arith
run_buffers-used src_port dst_port true id checksum bytes (f ∷ fs) =
    fill_buffers-used id bytes (store_chksum rfc src_port dst_port checksum f ∷ fs)
run_buffers-used src_port dst_port false id checksum bytes (f ∷ fs) = omega arith

first_byte : Option (List ℕ) → ℕ
first_byte none = 0
first_byte (some bytes) = get_or bytes 0 0

-- A payload takes a frame.
frames_given :
    (mhrs : List (List ℕ)) (headers : List ℕ) (iphc size id : ℕ) (handed : List (List ℕ))
    → Delivers mhrs headers iphc (suc size) id handed
    → 0 < length handed
unfolding receive_all first_byte
frames_given mhrs headers iphc size id [] d =
    let other = ap first_byte (d.received (u8 id + 1)) in absurd (omega arith)
frames_given mhrs headers iphc size id (f ∷ fs) d = omega arith

-- Once all frames were given, the receiver has the datagram, and the line for it has its length.
Delivers-given :
    (src_port dst_port : ℕ) (mhrs : List (List ℕ)) (headers : List ℕ) (iphc size id stop x used : ℕ)
    (out : List Buffer) (timer_window : List ℕ) (r : Run)
    → 0 < size
    → used ≤ length out
    → Delivers mhrs headers iphc size id (map content (take used out))
    → length timer_window ≡ 16
    → Reach rfc src_port dst_port size used out id timer_window r
    → r.sender ≡ signalling used
    → r.refused ≡ 0
    → (receive_all iphc size (id % 2 ^ 16) (reverse (given r.got)) (replicate size x)
        ≡ some (replicate size (u8 id)))
      × (thread_turn stop (replicate size (u8 id)) r
          ≡ some (size, u32 (stop + 4294967296 - first_time r.got)))
Delivers-given src_port dst_port mhrs headers iphc zero id stop x used out timer_window r some_data
      h d sized reach through none_refused =
    absurd (omega arith)
Delivers-given src_port dst_port mhrs headers iphc (suc size) id stop x used out timer_window r
      some_data h d sized reach through none_refused =
    let handed = map content (take used out) in
    let counted : length handed ≡ used = length-contents (take used out) ∙ length-take used out h in
    let (pending, sync, dropped, frames, in_order, lens, timed) =
      delivered out used id (omega (arith, d.few, counted)) rfc src_port dst_port (suc size) stop
        (replicate size (u8 id)) sized reach through in
    let all_given : r.frag ≡ used = omega (arith, frames, none_refused) in
    let whole : reverse (given r.got) ≡ handed =
      ap reverse in_order
      ∙ ap (λ n. reverse (first_frames out n)) all_given
      ∙ reverse-first_frames out used h in
    let some_frames = frames_given mhrs headers iphc size id handed d in
    (
      ap (λ fs. receive_all iphc (suc size) (id % 2 ^ 16) fs (replicate (suc size) x)) whole
          ∙ d.received x,
      timed (omega (arith, all_given, counted, some_frames))
          ∙ ap (λ n. some (suc n, u32 (stop + 4294967296 - first_time r.got)))
              (length-replicate size (u8 id)),
    )

-- One run, with a payload of 1 to 1232 bytes and ports of 16 bits, from 18 buffers with their MAC
-- headers of 23 bytes, and with the constants of RFC 4944 and RFC 6282. `prepare_sixlowpan`, the
-- writes of the run, the threads that hand the frames over, in any interleaving, and a receiver of
-- RFC 4944: when the loop over the frames is through, before the buffers are reset, and the stack
-- refused none of them, the frames that the stack was given make the payload, every byte of it the low byte of the number of the run,
-- whatever the receiver's buffer was filled with; and for this payload the receiving thread prints
-- its size and the time since the first of the frames was fetched.
pub whole_datagram :
    (src_port dst_port : ℕ) (mhr checksum : List ℕ) (mhrs : List (List ℕ)) (size id stop x : ℕ)
    (fs : List Buffer) (timer_window : List ℕ) (r : Run)
    → src_port < 2 ^ 16
    → dst_port < 2 ^ 16
    → 0 < size
    → size ≤ 1232
    → length checksum ≡ 2
    → length mhr ≡ 23
    → All (HasLength 23) mhrs
    → length mhrs ≡ 17
    → HasMhrs (mhr ∷ mhrs) fs
    → length timer_window ≡ 16
    → let (fragmented, prepared) = prepare_buffers rfc src_port dst_port size fs in
      let (used, out) =
        run_buffers rfc src_port dst_port fragmented id checksum
          (replicate size (u8 id))
          prepared in
      Reach rfc src_port dst_port size used out id timer_window r
      → r.sender ≡ signalling used
      → r.refused ≡ 0
      → (receive_all
            (iphc_len src_port dst_port)
            size
            (id % 2 ^ 16)
            (reverse (given r.got))
            (replicate size x)
          ≡ some (replicate size (u8 id)))
        × (thread_turn stop (replicate size (u8 id)) r
            ≡ some (size, u32 (stop + 4294967296 - first_time r.got)))
whole_datagram src_port dst_port mhr checksum mhrs size id stop x fs timer_window r hs hd some_data
      fits hc h hall many v sized reach through none_refused =
    let k = iphc_len src_port dst_port in
    let bounds = iphc_len_bounds src_port dst_port in
    let (fragmented, prepared) = prepare_buffers rfc src_port dst_port size fs in
    let (same, ready) =
      prepare_buffers-IsPrepared src_port dst_port hs hd mhr mhrs size fs bounds.1 v in
    let ready' =
      subst (λ b. IsPrepared src_port dst_port hs hd b mhr mhrs size prepared) (sym same) ready in
    let (d, after) =
      run-IsPrepared src_port dst_port hs hd fragmented mhr checksum mhrs size id prepared
        (sym same) some_data fits hc h hall many bounds ready' in
    let bytes = replicate size (u8 id) in
    let (used, out) = run_buffers rfc src_port dst_port fragmented id checksum bytes prepared in
    Delivers-given src_port dst_port (mhr ∷ mhrs) (init_iphc rfc src_port dst_port ++ checksum) k
      size id stop x used out timer_window r some_data
      (run_buffers-used src_port dst_port fragmented id checksum bytes prepared) d sized reach
      through none_refused
