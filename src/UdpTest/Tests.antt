-- ===== src/UdpTest/Tests.antt =====
-- The theorems on the UDP commands at concrete inputs.
use riot_playground.Common.{ℕ, ◌≡◌, refl, List, [], ◌∷◌, ◌++◌, Bool, true, codes, some}
use riot_playground.UdpTest.{Outcome, goes_out, initial, send_loop, udp_cmd}
use riot_playground.UdpTest.Sending.{packets, sent-send_loop}
use riot_playground.UdpTest.Server.{IsConsistent, boot, next, command, Reach-IsConsistent}

abbrev any : List ℕ → Bool
any s = true

abbrev all_out : ℕ → Outcome
all_out i = goes_out

abbrev start : List (List ℕ)
start = codes "udp" ∷ codes "server" ∷ codes "start" ∷ codes "8808" ∷ []

Reach-IsConsistent_example : IsConsistent (udp_cmd any all_out (some 6) start initial).1
Reach-IsConsistent_example = Reach-IsConsistent any (next boot (command all_out (some 6) start))

sent-send_loop_run : (send_loop all_out 64 8808 3 0 initial).sent ≡ packets 64 8808 3 0 ++ []
sent-send_loop_run = sent-send_loop all_out 64 8808 3 0 initial (λ k. refl)
