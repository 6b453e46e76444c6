-- ===== src/UdpServer/Tests.antt =====
-- The two servers at concrete commands.
use riot_playground.Common.{ℕ, ◌≡◌, refl, List, [], ◌∷◌, Bool, true, none, some, codes}
use riot_playground.Common.Chars.{atoi}
use riot_playground.UdpTest
use riot_playground.GnrcHost
use riot_playground.UdpServer.{Command, starts, stops, sends, started, spec_run, run}
use riot_playground.UdpServer.Programs.{
  test_port, host_port, test_program, host_program, same_server,
}

abbrev any : List ℕ → Bool
any s = true

abbrev test_out : ℕ → UdpTest.Outcome
test_out i = UdpTest.Outcome.goes_out

abbrev host_out : ℕ → GnrcHost.Outcome
host_out i = GnrcHost.Outcome.no_ip_header

-- A start, a second start, a stop, and a start on another port.
abbrev commands : List Command
commands =
    starts (codes "8808")
    ∷ starts (codes "61616")
    ∷ sends (codes "ff02::1" ∷ codes "8808" ∷ codes "abc" ∷ [])
    ∷ stops
    ∷ starts (codes "5683")
    ∷ []

last_port : spec_run commands none ≡ some 5683
unfolding spec_run started atoi
last_port = refl

same_server_example :
    let test = test_program any test_out 5 in
    let host = host_program any host_out 6 in
    (test_port (run test commands UdpTest.initial) ≡ spec_run commands none)
    × (host_port (run host commands (GnrcHost.initial 0xffff)) ≡ spec_run commands none)
same_server_example = same_server any test_out host_out 5 6 0xffff commands
