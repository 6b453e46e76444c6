-- ===== src/TimeRx/Delivery.antt =====
-- stack_comparison/time_rx/gnrc/exp.c: how the frames of a run reach the network stack. The main
-- thread signals each frame to the device and waits at a semaphore; the stack's thread answers a
-- signal by `_netdev_isr`, asks for the length of the frame and then for its bytes. What a call does
-- after it has posted the semaphore is a step of its own, since the main thread may go on before it.
pub mod Invariant
pub mod Order
pub mod Race
pub mod Whole
mod Tests
use riot_playground.Common.{
  ℕ, ◌+◌, ◌-◌, ◌%◌, ◌<◌, ◌≡◌, List, [], ◌∷◌, Option, none, some, ltb, ◌==◌, if◌then◌else◌, u8, u32,
  length, get_or, set,
}
use riot_playground.TimeRx.Headers.{Constants}
use riot_playground.TimeRx.Buffers.{Buffer, content, reset_buffers}

abbrev pub timer_window_size : ℕ
timer_window_size = 16

-- Where the loop of `exp_run` over the fragments stands: before signalling a fragment, or waiting
-- for it to be processed; `finished` is when the buffers are reset for the next run.
pub data Sender : Type 0 where
  signalling waiting : ℕ → Sender
  finished : Sender

-- `bufs` is `frag_buf` with `frag_buf_len`, `frag` is `_frag` and `id` is `_id`. `pending` counts the
-- signals that the stack has not answered, `got` holds what it was given and when, and `returned` the
-- lengths that the calls returned, the newest first; `returning` is the local `frag` of a call that
-- has posted the semaphore and not returned. `refused` counts -ENOBUFS, and `dropped` the frames that
-- the stack let go.
pub record Run : Type 0 where
  pub bufs : List Buffer
  pub frag : ℕ
  pub id : ℕ
  pub timer_window : List ℕ
  pub sync : ℕ
  pub pending : ℕ
  pub sender : Sender
  pub returning : Option ℕ
  pub got : List (ℕ × List ℕ)
  pub returned : List ℕ
  pub refused : ℕ
  pub dropped : ℕ

abbrev pub no_buffer : Buffer
no_buffer = record { bytes = []; len = 0 }

-- `frag_buf[i]`, as far as `frag_buf_len[i]`
abbrev pub frame : List Buffer → ℕ → List ℕ
frame bufs i = content (get_or bufs i no_buffer)

-- `frag_buf_len[i]`
abbrev pub buf_len : List Buffer → ℕ → ℕ
buf_len bufs i = (get_or bufs i no_buffer).len

-- `_netdev_recv` without a buffer: the length of the frame.
unfoldable pub netdev_len : Run → ℕ
netdev_len r = buf_len r.bufs r.frag

-- `_netdev_recv` with a buffer of `len` bytes at the time `now`, up to the post of the semaphore: what
-- is put into the buffer, or `none` for -ENOBUFS.
unfoldable pub netdev_recv : ℕ → ℕ → Run → Option (List ℕ) × Run
netdev_recv now len r =
    let bytes = frame r.bufs r.frag in
    let slot = r.id % timer_window_size in
    let window = if r.frag == 0 then set r.timer_window slot now else r.timer_window in
    if ltb len (buf_len r.bufs r.frag)
    then (none, record r { sync = r.sync + 1; refused = r.refused + 1 })
    else (
      some bytes,
      record r {
        frag = u8 (r.frag + 1);
        timer_window = window;
        sync = r.sync + 1;
        returning = some r.frag;
        got = (now, bytes) ∷ r.got;
      },
    )

-- The rest of the call: it reads the length that it returns.
unfoldable pub netdev_return : ℕ → Run → Run
netdev_return f r = record r { returning = none; returned = buf_len r.bufs f ∷ r.returned }

unfoldable pub signal : ℕ → Run → Run
signal i r = record r { pending = r.pending + 1; sender = waiting i }

-- `sema_wait`, and on to the next fragment.
unfoldable pub wait : ℕ → Run → Run
wait i r = record r { sync = r.sync - 1; sender = signalling (i + 1) }

-- The stack's thread takes a signal.
abbrev pub answered : Run → Run
answered r = record r { pending = r.pending - 1 }

-- The stack has no packet buffer for a frame, so it does not ask for its bytes.
unfoldable pub drop_frame : Run → Run
drop_frame r = record r { pending = r.pending - 1; dropped = r.dropped + 1 }

-- A turn of `_thread` for a datagram that was received at `stop`: the line that it prints. Nothing
-- comes of an empty datagram, and the thread ends.
unfoldable pub thread_turn : ℕ → List ℕ → Run → Option (ℕ × ℕ)
thread_turn stop [] r = none
thread_turn stop (id ∷ bytes) r =
    let start = get_or r.timer_window (id % timer_window_size) 0 in
    some (length (id ∷ bytes), u32 (stop + 4294967296 - start))

-- A run that begins.
unfoldable pub begin : List Buffer → ℕ → List ℕ → Run
begin bufs id timer_window = record {
  bufs = bufs;
  frag = 0;
  id = id;
  timer_window = timer_window;
  sync = 0;
  pending = 0;
  sender = signalling 0;
  returning = none;
  got = [];
  returned = [];
  refused = 0;
  dropped = 0;
}

-- The stack's thread: it answers each signal by one call with a buffer, of any length, or lets the
-- frame go, and it makes one call at a time.
pub data StackStep (r : Run) : Run → Type 0 where
  receives :
      (now len : ℕ)
      → r.returning ≡ none
      → 0 < r.pending
      → StackStep r (netdev_recv now len (answered r)).1
  returns : (f : ℕ) → r.returning ≡ some f → StackStep r (netdev_return f r)
  drops : r.returning ≡ none → 0 < r.pending → StackStep r (drop_frame r)

module _ (c : Constants) (src_port dst_port payload_size : ℕ) where
  -- `reset_frag_buf` and the reset of `_frag`.
  unfoldable pub reset : Run → Run
  unfolding reset_buffers
  reset r = record r {
    bufs = reset_buffers c src_port dst_port payload_size r.bufs;
    frag = 0;
    sender = finished;
  }

  -- The main thread, for a datagram in `fragments` frames.
  module _ (fragments : ℕ) where
    pub data MainStep (r : Run) : Run → Type 0 where
      signals : (i : ℕ) → r.sender ≡ signalling i → i < fragments → MainStep r (signal i r)
      waits : (i : ℕ) → r.sender ≡ waiting i → 0 < r.sync → MainStep r (wait i r)
      resets : r.sender ≡ signalling fragments → MainStep r (reset r)

    pub data Step (r r' : Run) : Type 0 where
      main : MainStep r r' → Step r r'
      stack : StackStep r r' → Step r r'

    pub data Reach (bufs : List Buffer) (id : ℕ) (timer_window : List ℕ) : Run → Type 0 where
      begins : Reach bufs id timer_window (begin bufs id timer_window)
      next : {r r' : Run} → Reach bufs id timer_window r → Step r r' → Reach bufs id timer_window r'
