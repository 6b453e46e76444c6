-- ===== src/GnrcHost.antt =====
-- gnrc_host/udp.c: an earlier command `udp`, which sends a text and has a server that dumps what it
-- gets. The packet buffer and the registry of RIOT are parameters, as outcomes of the calls; a snip
-- is one allocation in the packet buffer. Printing and the delay between packets are not modelled.
pub mod Consistent
mod Tests
use riot_playground.Common.{
  ℕ, zero, suc, ◌+◌, ◌-◌, List, [], ◌∷◌, Bool, true, false, not, ◌||◌, ltb, ◌==◌, if◌then◌else◌,
  u32, length, get_or, codes,
}
use riot_playground.Common.Chars.{str_eq, atoi, int_to_u16, int_to_u32}

-- A packet that went out: its text and the port.
pub record Packet : Type 0 where
  pub text : List ℕ
  pub port : ℕ

-- `server_pid` and `demux_ctx` are those of `server`; a thread is known by its number, 0 is
-- KERNEL_PID_UNDEF. `snips` counts the snips that the command holds.
pub record Host : Type 0 where
  pub server_pid : ℕ
  pub demux_ctx : ℕ
  pub registered : Bool
  pub snips : ℕ
  pub sent : List Packet

-- GNRC_NETREG_DEMUX_CTX_ALL is a constant of RIOT.
abbrev pub initial : ℕ → Host
initial demux_ctx_all = record {
  server_pid = 0;
  demux_ctx = demux_ctx_all;
  registered = false;
  snips = 0;
  sent = [];
}

-- How far one turn of the loop of `send` comes.
pub data Outcome : Type 0 where
  no_payload no_udp_header no_ip_header no_thread goes_out : Outcome

abbrev allocate : Host → Host
allocate h = record h { snips = h.snips + 1 }

-- A release of a chain of `n` snips, or its hand-over to the network stack.
abbrev release : ℕ → Host → Host
release n h = record h { snips = h.snips - n }

-- One turn of the loop: whether it goes on, and the state.
unfoldable pub send_one : Outcome → List ℕ → ℕ → Host → Bool × Host
send_one outcome text port h =
    let payload = allocate h in
    let udp = allocate payload in
    let ip = allocate udp in
    let packet : Packet = record { text = text; port = port } in
    elim outcome [
      | no_payload ↦ (false, h)
      | no_udp_header ↦ (false, release 1 payload)
      | no_ip_header ↦ (false, release 2 udp)
      | no_thread ↦ (false, release 3 ip)
      | goes_out ↦ (true, release 3 (record ip { sent = packet ∷ h.sent }))
    ]

-- The loop from turn `i` on, for `n` more turns.
unfoldable pub send_loop : (ℕ → Outcome) → List ℕ → ℕ → ℕ → ℕ → Host → Host
send_loop outcome text port zero i h = h
send_loop outcome text port (suc n) i h =
    let (goes_on, h') = send_one (outcome i) text port h in
    elim goes_on [ true ↦ send_loop outcome text port n (i + 1) h' | false ↦ h' ]

-- `is_addr` is whether `ipv6_addr_from_str` can read an address.
unfoldable pub send : (List ℕ → Bool) → (ℕ → Outcome) → List ℕ → List ℕ → List ℕ → ℕ → Host → Host
unfolding send_loop atoi
send is_addr outcome addr_str port_str text num h =
    let port = int_to_u16 (atoi port_str) in
    if not (is_addr addr_str) || port == 0 then h else send_loop outcome text port num 0 h

-- `pktdump` is the number of the thread that `gnrc_pktdump_getpid` gives, less one.
unfoldable pub start_server : ℕ → List ℕ → Host → Host
unfolding atoi
start_server pktdump port_str h =
    let port = int_to_u16 (atoi port_str) in
    if not (h.server_pid == 0) || port == 0
    then h
    else record h { server_pid = suc pktdump; demux_ctx = port; registered = true }

unfoldable pub stop_server : Host → Host
stop_server h = if h.server_pid == 0 then h else record h { registered = false; server_pid = 0 }

abbrev pub arg : List (List ℕ) → ℕ → List ℕ
arg argv i = get_or argv i []

module _ (is_addr : List ℕ → Bool) (outcome : ℕ → Outcome) (pktdump : ℕ) where
  -- The branches of `udp_cmd`, each with the exit status and the state.
  unfoldable pub send_branch : List (List ℕ) → Host → ℕ × Host
  unfolding send
  send_branch argv h =
      let argc = length argv in
      let num = if ltb 5 argc then int_to_u32 (atoi (arg argv 5)) else 1 in
      if ltb argc 5
      then (1, h)
      else (0, send is_addr outcome (arg argv 2) (arg argv 3) (arg argv 4) num h)

  unfoldable pub server_branch : List (List ℕ) → Host → ℕ × Host
  unfolding start_server stop_server str_eq
  server_branch argv h =
      let argc = length argv in
      if ltb argc 3
      then (1, h)
      else if str_eq (arg argv 2) (codes "start")
      then (if ltb argc 4 then (1, h) else (0, start_server pktdump (arg argv 3) h))
      else if str_eq (arg argv 2) (codes "stop")
      then (0, stop_server h)
      else (0, h)

  unfoldable pub udp_cmd : List (List ℕ) → Host → ℕ × Host
  unfolding send_branch server_branch str_eq
  udp_cmd argv h =
      let cmd = arg argv 1 in
      if ltb (length argv) 2
      then (1, h)
      else if str_eq cmd (codes "send")
      then send_branch argv h
      else if str_eq cmd (codes "server")
      then server_branch argv h
      else (0, h)
