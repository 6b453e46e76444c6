-- ===== src/UdpTest.antt =====
-- udp_test/udp.c: the command `udp`, which sends packets and runs a server that counts them.
-- The packet buffer, the registry and the thread creation of RIOT are parameters, as outcomes of
-- the calls; a snip is one allocation in the packet buffer. Printing is not modelled.
pub mod Sending
pub mod Server
mod Tests
use riot_playground.Common.{
  ℕ, zero, suc, ◌+◌, ◌-◌, ◌≡◌, List, [], ◌∷◌, ◌++◌, Bool, true, false, not, ◌&&◌, ◌||◌, ltb, leb,
  ◌==◌, if◌then◌else◌, u8, u32, length, get_or, codes, Option, none, some,
}
use riot_playground.Common.Chars.{str_eq, atoi, int_to_u16, int_to_u32}

-- What the server's thread receives.
pub data Message : Type 0 where
  rcv get_or_set reset : Message

-- A packet that went out: the byte that fills it, its length and its port.
pub record Packet : Type 0 where
  pub fill_byte : ℕ
  pub data_len : ℕ
  pub port : ℕ

-- A thread is known by its number; 0 is KERNEL_PID_UNDEF. `inbox` holds the messages of the
-- server's thread, the oldest first, `snips` counts the snips that the command holds.
pub record Udp : Type 0 where
  pub server_port : ℕ
  pub server_target : ℕ
  pub registered : Bool
  pub server_pid : ℕ
  pub send_count : ℕ
  pub rcv_count : ℕ
  pub inbox : List Message
  pub snips : ℕ
  pub sent : List Packet

abbrev pub initial : Udp
initial = record {
  server_port = 0;
  server_target = 0;
  registered = false;
  server_pid = 0;
  send_count = 0;
  rcv_count = 0;
  inbox = [];
  snips = 0;
  sent = [];
}

-- A turn of `_eventloop`, with the message that it takes.
unfoldable pub event_turn : Message → Udp → Udp
event_turn rcv u = record u { rcv_count = u32 (u.rcv_count + 1) }
event_turn get_or_set u = u
event_turn reset u = record u { rcv_count = 0 }

-- How far one turn of the loop of `send` comes.
pub data Outcome : Type 0 where
  no_payload no_udp_header no_ip_header no_thread goes_out : Outcome

abbrev allocate : Udp → Udp
allocate u = record u { snips = u.snips + 1 }

-- A release of a chain of `n` snips, or their hand-over to the network stack.
abbrev release : ℕ → Udp → Udp
release n u = record u { snips = u.snips - n }

-- One turn of the loop: whether it goes on, and the state.
unfoldable pub send_one : Outcome → ℕ → ℕ → Udp → Bool × Udp
send_one outcome data_len port u =
    let with_payload = allocate (record u { send_count = u8 (u.send_count + 1) }) in
    let with_udp = allocate with_payload in
    let with_ip = allocate with_udp in
    let packet : Packet = record { fill_byte = u.send_count; data_len = data_len; port = port } in
    elim outcome [
      | no_payload ↦ (false, u)
      | no_udp_header ↦ (false, release 1 with_payload)
      | no_ip_header ↦ (false, release 2 with_udp)
      | no_thread ↦ (false, release 3 with_ip)
      | goes_out ↦ (true, release 3 (record with_ip { sent = packet ∷ u.sent }))
    ]

-- The loop from turn `i` on, for `n` more turns.
unfoldable pub send_loop : (ℕ → Outcome) → ℕ → ℕ → ℕ → ℕ → Udp → Udp
send_loop outcome data_len port zero i u = u
send_loop outcome data_len port (suc n) i u =
    let (goes_on, u') = send_one (outcome i) data_len port u in
    elim goes_on [ true ↦ send_loop outcome data_len port n (i + 1) u' | false ↦ u' ]

-- `is_addr` is whether `ipv6_addr_from_str` can read an address.
unfoldable pub send : (List ℕ → Bool) → (ℕ → Outcome) → List ℕ → List ℕ → List ℕ → ℕ → Udp → Udp
unfolding send_loop atoi
send is_addr outcome addr_str port_str data_len_str num u =
    let port = int_to_u16 (atoi port_str) in
    let data_len = int_to_u32 (atoi data_len_str) in
    if not (is_addr addr_str) || (port == 0 || data_len == 0)
    then u
    else send_loop outcome data_len port num 0 u

-- `created` is the number of the thread that `thread_create` makes, less one.
unfoldable pub start_server : Option ℕ → List ℕ → Udp → Udp
unfolding atoi
start_server created port_str u =
    let port = int_to_u16 (atoi port_str) in
    if not (u.server_target == 0) || port == 0
    then u
    else if 0 == u.server_pid
    then elim created [
      | none ↦ u
      | some n ↦ record u {
        server_pid = suc n;
        server_port = port;
        server_target = suc n;
        registered = true;
      }
    ]
    else record u { server_port = port; server_target = u.server_pid; registered = true }

unfoldable pub stop_server : Udp → Udp
stop_server u = if u.server_target == 0 then u else record u {
  inbox = u.inbox ++ reset ∷ [];
  registered = false;
  server_port = 0;
  server_target = 0;
}

abbrev pub arg : List (List ℕ) → ℕ → List ℕ
arg argv i = get_or argv i []

module _ (is_addr : List ℕ → Bool) (outcome : ℕ → Outcome) (created : Option ℕ) where
  -- The branches of `udp_cmd`, each with the exit status and the state.
  unfoldable pub send_branch : List (List ℕ) → Udp → ℕ × Udp
  unfolding send
  send_branch argv u =
      let argc = length argv in
      let num = if ltb 5 argc then int_to_u32 (atoi (arg argv 5)) else 1 in
      if ltb argc 5
      then (1, u)
      else (0, send is_addr outcome (arg argv 2) (arg argv 3) (arg argv 4) num u)

  unfoldable pub server_branch : List (List ℕ) → Udp → ℕ × Udp
  unfolding start_server stop_server str_eq
  server_branch argv u =
      let argc = length argv in
      if ltb argc 3
      then (1, u)
      else if str_eq (arg argv 2) (codes "start")
      then (if ltb argc 4 then (1, u) else (0, start_server created (arg argv 3) u))
      else if str_eq (arg argv 2) (codes "stop")
      then (0, stop_server u)
      else (0, u)

  unfoldable pub reset_branch : Udp → ℕ × Udp
  reset_branch u =
      if 0 == u.server_pid
      then (0, u)
      else (0, record u { inbox = u.inbox ++ reset ∷ []; send_count = 0 })

  unfoldable pub udp_cmd : List (List ℕ) → Udp → ℕ × Udp
  unfolding send_branch server_branch reset_branch str_eq
  udp_cmd argv u =
      let cmd = arg argv 1 in
      if ltb (length argv) 2
      then (1, u)
      else if str_eq cmd (codes "send")
      then send_branch argv u
      else if str_eq cmd (codes "server")
      then server_branch argv u
      else if str_eq cmd (codes "reset")
      then reset_branch u
      else (0, u)
