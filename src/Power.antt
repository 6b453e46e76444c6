-- ===== src/Power.antt =====
-- stack_comparison/power_tx/gnrc/main.c and power_rx/gnrc/main.c: one board sends numbered packets,
-- and both show by their LEDs when the power is to be measured. The three LEDs of a board are always
-- switched together. The network between the boards is a parameter. Printing and delays are not
-- modelled.
pub mod Window
mod Tests
use riot_playground.Common.{
  ℕ, zero, suc, ◌+◌, ◌-◌, List, [], ◌∷◌, ◌++◌, Bool, true, false, ltb, ◌==◌, if◌then◌else◌, Option,
  none, some, codes, replicate, write_at,
}
use riot_playground.Common.Decimal.{print_u}
use riot_playground.Common.Int.{ℤ, pos, negsuc}
use riot_playground.Common.Chars.{until_nul, atoi}

abbrev pub num_packets : ℕ
num_packets = 100

-- `%02d` of `printf`
unfoldable pub print_02 : ℕ → List ℕ
unfolding print_u
print_02 n = if ltb n 10 then b'0' ∷ (b'0' + n) ∷ [] else print_u n

-- The text of packet `i`.
unfoldable pub text : ℕ → List ℕ
unfolding print_02
text i = print_02 i ++ codes " Msg buffer w/20b"

-- The sending board; `sent` holds the texts, the newest first.
pub record Sender : Type 0 where
  pub sender_leds : Bool
  pub sent : List (List ℕ)

-- A turn of the loop of `send`.
unfoldable pub send_turn : ℕ → Sender → Sender
send_turn i s =
    let s' : Sender = record s { sent = text i ∷ s.sent } in
    if i == num_packets - 1 then record s' { sender_leds = true } else s'

-- The loop for `n` more turns, the first of them number `i`.
unfoldable pub send_loop : ℕ → ℕ → Sender → Sender
send_loop zero i s = s
send_loop (suc n) i s = send_loop n (i + 1) (send_turn i s)

unfoldable pub send : Sender → Sender
unfolding send_loop
send s = send_loop (num_packets + 1) 0 (record s { sender_leds = false })

-- The receiving board; `buffer` is `data`.
pub record Receiver : Type 0 where
  pub leds : Bool
  pub buffer : List ℕ

-- The receiver before its loop.
abbrev pub started : Receiver
started = record { leds = true; buffer = replicate 21 0 }

-- `packet_nr == n` for an `int`.
abbrev is_number : ℤ → ℕ → Bool
is_number (pos k) n = k == n
is_number (negsuc k) n = false

-- A turn of the loop of the receiver; `none` is an error of `conn_udp_recvfrom`.
unfoldable pub receive_turn : Option (List ℕ) → Receiver → Receiver
unfolding until_nul atoi
receive_turn none r = r
receive_turn (some datagram) r =
    let data' = write_at r.buffer 0 datagram in
    let packet_nr = atoi (until_nul data') in
    let off = if is_number packet_nr 0 then false else r.leds in
    record r { buffer = data'; leds = if is_number packet_nr num_packets then true else off }
