-- ===== src/MsgSendReceive.antt =====
-- msg_send_receive/main.c: one thread sends the other a pointer to its counter and gets one back;
-- the other increments the counters behind both pointers. The threads share memory, and may be
-- interleaved at each access to it; RIOT's `msg_send_receive` waits for the reply to its message.
pub mod Counting
mod Tests
use riot_playground.Common.{ℕ, ◌+◌, ◌≡◌, List, [], ◌∷◌, Option, none, some, u32}

-- What a `test_struct_t` points to: the variable `counter` of either thread.
pub data Pointer : Type 0 where
  first second : Pointer

-- Where `thread1` stands: before `msg_send_receive`; waiting in it; after it, with the response.
pub data Asker : Type 0 where
  ready waiting : Asker
  answered : Option Pointer → Asker

-- Where `thread2` stands: in `msg_receive`; before each increment, with the request; before
-- `msg_reply`, which needs the request's sender only.
pub data Answerer : Type 0 where
  receiving : Answerer
  received incremented : Pointer → Answerer
  replying : Answerer

-- `printed` holds the pairs that `thread1` prints, the newest first, and `nulls` counts its lines
-- on a response that is NULL.
pub record Threads : Type 0 where
  pub first_counter : ℕ
  pub second_counter : ℕ
  pub asker : Asker
  pub answerer : Answerer
  pub printed : List (ℕ × ℕ)
  pub nulls : ℕ

-- `resp_struct.a` and `req_struct.a`, which no statement changes.
abbrev pub request_pointer : Pointer
request_pointer = first

abbrev pub response_pointer : Pointer
response_pointer = second

unfoldable pub load : Pointer → Threads → ℕ
load first t = t.first_counter
load second t = t.second_counter

-- `(*p)++`, on a word of 32 bits.
unfoldable pub increment : Pointer → Threads → Threads
increment first t = record t { first_counter = u32 (t.first_counter + 1) }
increment second t = record t { second_counter = u32 (t.second_counter + 1) }

-- Both threads after `main` has created them.
abbrev pub initial : Threads
initial = record {
  first_counter = 0;
  second_counter = 0;
  asker = ready;
  answerer = receiving;
  printed = [];
  nulls = 0;
}

-- What `thread1` does with a response.
unfoldable pub print_response : Option Pointer → Threads → Threads
unfolding load
print_response none t = record t { asker = ready; nulls = t.nulls + 1 }
print_response (some p) t = record t {
  asker = ready;
  printed = (t.first_counter, load p t) ∷ t.printed;
}

unfoldable pub deliver : Threads → Threads
deliver t = record t { asker = waiting; answerer = received request_pointer }

unfoldable pub increment_request : Pointer → Threads → Threads
unfolding increment
increment_request p t = record (increment p t) { answerer = incremented p }

unfoldable pub increment_response : Threads → Threads
unfolding increment
increment_response t = record (increment response_pointer t) { answerer = replying }

unfoldable pub reply : Threads → Threads
reply t = record t { asker = answered (some response_pointer); answerer = receiving }

-- The steps of both threads. A message is handed over when its sender has sent it and its receiver
-- waits for it.
pub data Step (t : Threads) : Threads → Type 0 where
  send : t.asker ≡ ready → t.answerer ≡ receiving → Step t (deliver t)
  count_request : (p : Pointer) → t.answerer ≡ received p → Step t (increment_request p t)
  count_response : (p : Pointer) → t.answerer ≡ incremented p → Step t (increment_response t)
  answer : t.answerer ≡ replying → t.asker ≡ waiting → Step t (reply t)
  print : (r : Option Pointer) → t.asker ≡ answered r → Step t (print_response r t)

-- The states that both threads get to in so many steps.
pub data Reach : ℕ → Threads → Type 0 where
  start : Reach 0 initial
  next : {n : ℕ} {t u : Threads} → Reach n t → Step t u → Reach (n + 1) u
