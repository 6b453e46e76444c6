-- ===== src/TimeRx/Delivery/Order.antt =====
-- The stack gets the frames in order, each once, and the main thread waits for the stack only.
use riot_playground.Common.{
  ℕ, suc, ◌+◌, ◌-◌, ◌%◌, ◌≤◌, ◌<◌, ◌≡◌, refl, inl, inr, List, ◌∷◌, some, u8, u32, length, arith,
}
use riot_playground.TimeRx.Headers.{Constants}
use riot_playground.TimeRx.Buffers.{Buffer}
use riot_playground.TimeRx.Delivery.Invariant.{given, first_time, first_frames, Returned, Reach-Inv}
use riot_playground.TimeRx.Delivery.{signalling, Run, thread_turn, Reach}

module _ (bufs : List Buffer) (fragments id : ℕ) (few : fragments ≤ 18) (c : Constants)
    (src_port dst_port payload_size : ℕ) where
  -- When the loop over the (at most 18) fragments of run `id` is through, before the buffers are
  -- reset, however the threads were interleaved: each signal was answered by a call with a buffer
  -- and each post waited for, so the next run starts with the semaphore at 0; the stack let no
  -- frame go; it was given the first frames in order, each once, one for each call that was not
  -- refused for want of space; each of these calls has returned the length of its frame, but for
  -- the last, which may still be about to read it after its post; and if the stack was given any
  -- frame, the line for a datagram of this run counts its time from the moment at which the first
  -- one was fetched. The stack's thread makes one call at a time.
  pub delivered :
      {timer_window : List ℕ} {r : Run} (stop : ℕ) (bytes : List ℕ)
      → length timer_window ≡ 16
      → Reach c src_port dst_port payload_size fragments bufs id timer_window r
      → r.sender ≡ signalling fragments
      → (r.pending ≡ 0)
        × (r.sync ≡ 0)
        × (r.dropped ≡ 0)
        × (r.frag + r.refused ≡ fragments)
        × (given r.got ≡ first_frames bufs r.frag)
        × Returned bufs r.returning r.frag r.returned
        × (0 < r.frag
            → thread_turn stop (u8 id ∷ bytes) r
              ≡ some (suc (length bytes), u32 (stop + 4294967296 - first_time r.got)))
  unfolding thread_turn
  delivered {r} stop bytes sized reach through =
      elim (Reach-Inv bufs fragments id few c src_port dst_port payload_size sized reach) [
        | inl v ↦
            let b = rw through at v.balanced in
            let slot : u8 id % 16 ≡ id % 16 = omega arith in
            (
              omega arith,
              omega arith,
              omega arith,
              omega arith,
              v.in_order,
              v.lens,
              λ some_frag. rw (slot, v.timed some_frag) refl,
            )
        | inr e ↦ absurd cc
      ]

  -- Until the reset, the buffers are as the run wrote them.
  pub bufs_kept :
      {timer_window : List ℕ} {r : Run}
      → length timer_window ≡ 16
      → Reach c src_port dst_port payload_size fragments bufs id timer_window r
      → r.sender ≡ signalling fragments
      → r.bufs ≡ bufs
  bufs_kept sized reach through =
      elim (Reach-Inv bufs fragments id few c src_port dst_port payload_size sized reach) [
        | inl v ↦ v.same_bufs
        | inr e ↦ absurd cc
      ]
