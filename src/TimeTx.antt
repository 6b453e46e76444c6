-- ===== src/TimeTx.antt =====
-- stack_comparison/time_tx/gnrc/exp.c: packets that carry their number and their size go down the
-- network stack, and the device's send callback takes the time that each needed. The stack is not
-- part of the repository: the callback gets whatever vector it is given.
pub mod Setup
pub mod Termination
pub mod Window
mod Tests
use riot_playground.Common.{
  ℕ, zero, suc, ◌+◌, ◌-◌, ◌*◌, ◌/◌, ◌%◌, List, [], ◌∷◌, not, ltb, ◌==◌, if◌then◌else◌, u8, u16, u32,
  length, get_or, set, take, drop, replicate, write_at, Option, none, some,
}
use riot_playground.Common.Chars.{str_eq}

abbrev pub honeyguide : List ℕ
honeyguide = 0x2d ∷ 0x4e ∷ []

abbrev pub honeyguide_len : ℕ
honeyguide_len = 2

abbrev pub tail_len : ℕ
tail_len = honeyguide_len + 2

abbrev pub timer_window_size : ℕ
timer_window_size = 16

abbrev pub max_payload : ℕ
max_payload = 1232

-- `sent` holds what `conn_udp_sendto` was given, the newest first.
pub record Experiment : Type 0 where
  pub payload_buffer : List ℕ
  pub timer_window : List ℕ
  pub sent : List (List ℕ)

-- The bytes of a `uint16_t` in memory, on the little-endian machines of the experiment.
abbrev pub u16_bytes : ℕ → List ℕ
u16_bytes n = n % 256 ∷ n / 256 ∷ []

-- The payload of a packet, as the loop of `exp_run` stores it in `payload_buffer`.
unfoldable pub fill_payload : ℕ → ℕ → List ℕ → List ℕ
fill_payload payload_size id buffer =
    let numbered = write_at buffer 0 (replicate (payload_size - tail_len) (u8 id)) in
    let sized = write_at numbered (payload_size - tail_len) (u16_bytes payload_size) in
    write_at sized (payload_size - honeyguide_len) honeyguide

-- One packet, sent at the time `now`.
unfoldable pub send_packet : ℕ → ℕ → ℕ → Experiment → Experiment
unfolding fill_payload
send_packet payload_size id now e =
    let buffer = fill_payload payload_size id e.payload_buffer in
    record e {
      payload_buffer = buffer;
      timer_window = set e.timer_window (id % timer_window_size) now;
      sent = take payload_size buffer ∷ e.sent;
    }

-- The inner loop of `exp_run` for `n` more packets, the first of them number `id`; `xtimer_now`
-- gives `now id` at packet `id`.
unfoldable pub run_ids : (ℕ → ℕ) → ℕ → ℕ → ℕ → Experiment → Experiment
run_ids now payload_size zero id e = e
run_ids now payload_size (suc n) id e =
    run_ids now payload_size n (id + 1) (send_packet payload_size id (now id) e)

abbrev total_len : List (List ℕ) → ℕ
total_len [] = 0
total_len (part ∷ parts) = length part + total_len parts

-- `vector[count - 1]`
abbrev pub last_part : List (List ℕ) → List ℕ
last_part [] = []
last_part (part ∷ []) = part
last_part (part ∷ next ∷ parts) = last_part (next ∷ parts)

-- `_netdev2_send`: what it returns, and the size and the time that it prints. `before` is the byte
-- of memory before the last part of the vector.
unfoldable pub netdev2_send : ℕ → ℕ → List (List ℕ) → Experiment → ℕ × Option (ℕ × ℕ)
unfolding str_eq
netdev2_send before stop vector e =
    let payload = last_part vector in
    let payload_len = length payload in
    let hg = drop (payload_len - honeyguide_len) payload in
    let res = total_len vector in
    let at_tail = payload_len - tail_len in
    let exp_payload_len = get_or payload at_tail 0 + get_or payload (at_tail + 1) 0 * 256 in
    let id = if at_tail == 0 then before else get_or payload (at_tail - 1) 0 in
    let start = get_or e.timer_window (id % timer_window_size) 0 in
    if ltb payload_len tail_len
    then (res, none)
    else if not (str_eq hg honeyguide)
    then (res, none)
    else (res + total_len vector, some (exp_payload_len, u32 (stop + 4294967296 - start)))

-- The static variables at the start.
abbrev pub initial : Experiment
initial = record {
  payload_buffer = replicate max_payload 0;
  timer_window = replicate timer_window_size 0;
  sent = [];
}

-- EXP_MIN_PAYLOAD, EXP_PAYLOAD_STEP and EXP_RUNS
abbrev pub min_payload : ℕ
min_payload = 8

abbrev pub payload_step : ℕ
payload_step = 8

abbrev pub exp_runs : ℕ
exp_runs = 1000

-- The outer loop of `exp_run` from a payload size on, which is a `uint16_t`, with fuel; `none` means
-- that the fuel ran out.
unfoldable pub run_sizes : (ℕ → ℕ → ℕ) → ℕ → ℕ → Experiment → Option Experiment
run_sizes now zero payload_size e = none
run_sizes now (suc f) payload_size e =
    let rest =
      run_sizes now f (u16 (payload_size + payload_step))
        (run_ids (now payload_size) payload_size exp_runs 0 e) in
    if ltb max_payload payload_size then some e else rest

-- `exp_run`, where `xtimer_now` gives `now size id` at a packet. There are 154 sizes.
unfoldable pub exp_run : (ℕ → ℕ → ℕ) → Option Experiment
unfolding run_sizes
exp_run now = run_sizes now 155 min_payload initial
