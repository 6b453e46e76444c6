-- ===== src/UdpServer/Programs.antt =====
-- Both programs have the server of the interface.
use riot_playground.Common.{
  ℕ, ◌≡◌, List, [], ◌∷◌, Option, none, some, ◌==◌, if◌then◌else◌, arith, codes, Bool,
}
use riot_playground.Common.Chars.{atoi, int_to_u16}
use riot_playground.UdpTest
use riot_playground.UdpTest.Server
use riot_playground.GnrcHost
use riot_playground.GnrcHost.Consistent
use riot_playground.UdpServer.{started, Program, Command, run, spec_run, port_of-run}

-- `udp server start <port>`, `udp server stop` and `udp send ...`.
abbrev pub start_argv : List ℕ → List (List ℕ)
start_argv port_str = codes "udp" ∷ codes "server" ∷ codes "start" ∷ port_str ∷ []

abbrev pub stop_argv : List (List ℕ)
stop_argv = codes "udp" ∷ codes "server" ∷ codes "stop" ∷ []

abbrev pub send_argv : List (List ℕ) → List (List ℕ)
send_argv args = codes "udp" ∷ codes "send" ∷ args

abbrev pub test_port : UdpTest.Udp → Option ℕ
test_port u = if u.server_target == 0 then none else some u.server_port

abbrev pub host_port : GnrcHost.Host → Option ℕ
host_port h = if h.server_pid == 0 then none else some h.demux_ctx

-- `created` and `pktdump` are the threads of the servers, less one.
module _ (is_addr : List ℕ → Bool) (outcome : ℕ → UdpTest.Outcome) (created : ℕ) where
  pub test_cmd : List (List ℕ) → UdpTest.Udp → UdpTest.Udp
  test_cmd argv u = (UdpTest.udp_cmd is_addr outcome (some created) argv u).1

  pub test_start :
      (port_str : List ℕ) (u : UdpTest.Udp)
      → test_port (test_cmd (start_argv port_str) u)
        ≡ started (int_to_u16 (atoi port_str)) (test_port u)
  unfolding test_cmd UdpTest.udp_cmd UdpTest.start_server started
  test_start port_str u = ground arith

  pub test_stop : (u : UdpTest.Udp) → test_port (test_cmd stop_argv u) ≡ none
  unfolding test_cmd UdpTest.udp_cmd UdpTest.stop_server
  test_stop u = ground arith

  pub test_send :
      (args : List (List ℕ)) (u : UdpTest.Udp)
      → test_port (test_cmd (send_argv args) u) ≡ test_port u
  unfolding test_cmd UdpTest.udp_cmd UdpTest.send
  test_send args u = grind (arith, Server.SameServer-send_loop)

module _ (is_addr : List ℕ → Bool) (outcome : ℕ → GnrcHost.Outcome) (pktdump : ℕ) where
  pub host_cmd : List (List ℕ) → GnrcHost.Host → GnrcHost.Host
  host_cmd argv h = (GnrcHost.udp_cmd is_addr outcome pktdump argv h).1

  pub host_start :
      (port_str : List ℕ) (h : GnrcHost.Host)
      → host_port (host_cmd (start_argv port_str) h)
        ≡ started (int_to_u16 (atoi port_str)) (host_port h)
  unfolding host_cmd GnrcHost.udp_cmd GnrcHost.start_server started
  host_start port_str h = ground arith

  pub host_stop : (h : GnrcHost.Host) → host_port (host_cmd stop_argv h) ≡ none
  unfolding host_cmd GnrcHost.udp_cmd GnrcHost.stop_server
  host_stop h = ground arith

  pub host_send :
      (args : List (List ℕ)) (h : GnrcHost.Host)
      → host_port (host_cmd (send_argv args) h) ≡ host_port h
  unfolding host_cmd GnrcHost.udp_cmd GnrcHost.send
  host_send args h = grind (arith, Consistent.SameServer-send_loop)

abbrev pub test_program : (List ℕ → Bool) → (ℕ → UdpTest.Outcome) → ℕ → Program UdpTest.Udp
test_program is_addr outcome created = record {
  start = λ port_str. test_cmd is_addr outcome created (start_argv port_str);
  stop = test_cmd is_addr outcome created stop_argv;
  send = λ args. test_cmd is_addr outcome created (send_argv args);
  port_of = test_port;
  port_of-start = test_start is_addr outcome created;
  port_of-stop = test_stop is_addr outcome created;
  port_of-send = test_send is_addr outcome created;
}

abbrev pub host_program : (List ℕ → Bool) → (ℕ → GnrcHost.Outcome) → ℕ → Program GnrcHost.Host
host_program is_addr outcome pktdump = record {
  start = λ port_str. host_cmd is_addr outcome pktdump (start_argv port_str);
  stop = host_cmd is_addr outcome pktdump stop_argv;
  send = λ args. host_cmd is_addr outcome pktdump (send_argv args);
  port_of = host_port;
  port_of-start = host_start is_addr outcome pktdump;
  port_of-stop = host_stop is_addr outcome pktdump;
  port_of-send = host_send is_addr outcome pktdump;
}

-- From their starts, and with threads for their servers, the two programs `udp` refine one server:
-- after any commands `udp server start <port>`, `udp server stop` and `udp send ...`, whatever calls
-- of RIOT fail in sending, the server of each runs on the port that `spec_run` says. A start with a
-- running server, or with a port that reads as 0, changes nothing.
pub same_server :
    (is_addr : List ℕ → Bool) (test_outcome : ℕ → UdpTest.Outcome)
    (host_outcome : ℕ → GnrcHost.Outcome) (created pktdump demux_ctx_all : ℕ) (cs : List Command)
    → let test = test_program is_addr test_outcome created in
      let host = host_program is_addr host_outcome pktdump in
      (test_port (run test cs UdpTest.initial) ≡ spec_run cs none)
      × (host_port (run host cs (GnrcHost.initial demux_ctx_all)) ≡ spec_run cs none)
same_server is_addr test_outcome host_outcome created pktdump demux_ctx_all cs = (
  port_of-run (test_program is_addr test_outcome created) cs UdpTest.initial,
  port_of-run (host_program is_addr host_outcome pktdump) cs (GnrcHost.initial demux_ctx_all),
)
