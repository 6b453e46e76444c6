-- ===== src/Luke/Controller.antt =====
-- lndw18_luke/controller/main.c: the button counts its presses, and the client posts them.
-- Interrupts may come between any two statements of the client that touch what they share; an
-- interrupt's handler runs undivided.
pub mod Invariant
pub mod Quiet
mod Tests
use riot_playground.Common.{
  ℕ, zero, suc, ◌+◌, ◌-◌, ◌≡◌, ◌<◌, List, [], ◌∷◌, Bool, true, false, ltb, ◌==◌, if◌then◌else◌, u32,
}

-- Where `_client` stands: in `msg_receive`; after it; after taking the counter; before
-- `_schedule_next_send`; before `post_points_to_target`.
pub data Client : Type 0 where
  waiting received : Client
  took scheduling posting : ℕ → Client

-- `queued` counts the messages that wait for the main thread, `posted` holds the numbers that
-- `post_points_to_target` was called with, the newest first.
pub record Controller : Type 0 where
  pub counter : ℕ
  pub sends_remaining : ℕ
  pub button_enabled : Bool
  pub timer_armed : Bool
  pub queued : ℕ
  pub client : Client
  pub posted : List ℕ

abbrev pub start_value : ℕ
start_value = 0

abbrev pub send_remaining_default : ℕ
send_remaining_default = 10

abbrev pub initial : Controller
initial = record {
  counter = start_value;
  sends_remaining = 0;
  button_enabled = true;
  timer_armed = false;
  queued = 0;
  client = waiting;
  posted = [];
}

unfoldable pub enable_button : Controller → Controller
enable_button s = record s { button_enabled = true }

unfoldable pub schedule_next_send : Controller → Controller
schedule_next_send s = record s { timer_armed = true }

-- The button's interrupt.
unfoldable pub increment_counter : Controller → Controller
unfolding schedule_next_send
increment_counter s =
    let counted = record s {
      button_enabled = false;
      counter = u32 (s.counter + 1);
      sends_remaining = send_remaining_default;
    } in
    if s.sends_remaining == 0 then schedule_next_send counted else counted

-- `atomic_exchange(&_counter, LUKE_START_VALUE)`
unfoldable pub take_counter : Controller → Controller
take_counter s = record s { counter = start_value; client = took s.counter }

-- `atomic_fetch_sub(&_sends_remaining, 1) > 1`, by which `_client` goes on. It wraps at 0.
unfoldable pub fetch_sub : ℕ → Controller → Controller
fetch_sub c s = record s {
  sends_remaining = u32 (s.sends_remaining + 4294967295);
  client = if ltb 1 s.sends_remaining then scheduling c else posting c;
}

unfoldable pub schedule : ℕ → Controller → Controller
unfolding schedule_next_send
schedule c s = record (schedule_next_send s) { client = posting c }

unfoldable pub post : ℕ → Controller → Controller
post c s = record s { posted = c ∷ s.posted; client = waiting }

-- The steps of the send timer and of `_client`.
pub data Step (s : Controller) : Controller → Type 0 where
  timer : s.timer_armed ≡ true → Step s (record s { timer_armed = false; queued = s.queued + 1 })
  receive :
      s.client ≡ waiting
      → 0 < s.queued
      → Step s (record s { queued = s.queued - 1; client = received })
  take : s.client ≡ received → Step s (take_counter s)
  subtract : (c : ℕ) → s.client ≡ took c → Step s (fetch_sub c s)
  reschedule : (c : ℕ) → s.client ≡ scheduling c → Step s (schedule c s)
  send : (c : ℕ) → s.client ≡ posting c → Step s (post c s)

-- What any run leads to in which the button's interrupt came so many times. The debounce timer
-- enables the button at any time.
pub data Reach : ℕ → Controller → Type 0 where
  boot : Reach 0 initial
  press :
      {n : ℕ} {s : Controller}
      → Reach n s
      → s.button_enabled ≡ true
      → Reach (suc n) (increment_counter s)
  debounced : {n : ℕ} {s : Controller} → Reach n s → Reach n (enable_button s)
  next : {n : ℕ} {s s' : Controller} → Reach n s → Step s s' → Reach n s'
