-- ===== src/TimeRx/Delivery/Tests.antt =====
-- A run of two frames at concrete inputs.
use riot_playground.Common.{
  ℕ, ◌+◌, ◌-◌, ◌<◌, ◌≡◌, refl, List, [], ◌∷◌, some, arith, u8, u32, replicate, length-replicate,
}
use riot_playground.TimeRx.Buffers.{Buffer}
use riot_playground.TimeRx.Buffers.Promise.{rfc}
use riot_playground.TimeRx.Delivery.{
  Run, signalling, netdev_recv, netdev_return, answered, signal, wait, thread_turn, begin, main,
  stack, signals, receives, returns, waits, Reach, begins, next,
}
use riot_playground.TimeRx.Delivery.Invariant.{given, first_time, first_frames, Returned}
use riot_playground.TimeRx.Delivery.Order.{delivered}

abbrev bufs : List Buffer
bufs =
    record { bytes = 1 ∷ 2 ∷ 3 ∷ 0 ∷ []; len = 3 } ∷ record { bytes = 4 ∷ 5 ∷ 0 ∷ []; len = 2 } ∷ []

abbrev window : List ℕ
window = replicate 16 0

-- The first frame is fetched, and the main thread goes on before the call returns; the second is
-- refused for want of space.
abbrev over : Run
over =
    let s = signal 0 (begin bufs 7 window) in
    let t = wait 0 (netdev_recv 100 127 (answered s)).1 in
    let u = netdev_return 0 (signal 1 t) in wait 1 (netdev_recv 200 1 (answered u)).1

run : Reach rfc 1 2 1000 2 bufs 7 window over
unfolding begin signal wait netdev_recv netdev_return
run =
    let first = next begins (main (signals 0 refl (omega arith))) in
    let fetched = next first (stack (receives 100 127 refl (omega arith))) in
    let waited = next fetched (main (waits 0 refl (omega arith))) in
    let second = next waited (main (signals 1 refl (omega arith))) in
    let returned = next second (stack (returns 0 refl)) in
    let refused = next returned (stack (receives 200 1 refl (omega arith))) in
    next refused (main (waits 1 refl (omega arith)))

through : over.sender ≡ signalling 2
unfolding begin signal wait netdev_recv netdev_return
through = refl

delivered_example :
    (over.pending ≡ 0)
    × (over.sync ≡ 0)
    × (over.dropped ≡ 0)
    × (over.frag + over.refused ≡ 2)
    × (given over.got ≡ first_frames bufs over.frag)
    × Returned bufs over.returning over.frag over.returned
    × (0 < over.frag
        → thread_turn 900 (u8 7 ∷ 7 ∷ []) over
          ≡ some (2, u32 (900 + 4294967296 - first_time over.got)))
delivered_example =
    delivered bufs 2 7 (omega arith) rfc 1 2 1000 900 (7 ∷ []) (length-replicate {A = ℕ} 16 0) run
      through

-- Both frames are fetched, and the second call has not returned.
abbrev fetched_all : Run
fetched_all =
    let t = wait 0 (netdev_recv 100 127 (answered (signal 0 (begin bufs 7 window)))).1 in
    let u = netdev_return 0 (signal 1 t) in wait 1 (netdev_recv 200 127 (answered u)).1
