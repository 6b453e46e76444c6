-- ===== src/SixlowpanSender/Tests.antt =====
-- Commands at concrete inputs.
use riot_playground.Common.{◌≡◌, refl, List, [], ◌∷◌, ◌++◌, none, codes}
use riot_playground.Common.Chars.{atoi, str_eq}
use riot_playground.SixlowpanSender.{State, link_local, boot, run_line, send}
use riot_playground.SixlowpanSender.Sending.{Command, sends, comps, run, sizes, packets, sent-run}

abbrev start : State
start = record { data_value = 255; src = 0x1234; hc_status = none; sent = [] }

-- The second size is out of range.
abbrev commands : List Command
commands = sends (codes "3") ∷ comps (codes "0") ∷ sends (codes "65536") ∷ sends (codes "2") ∷ []

accepted_sizes : sizes commands ≡ 3 ∷ 2 ∷ []
unfolding sizes atoi
accepted_sizes = refl

link_local_address :
    link_local 0x1234
    ≡ 0xfe ∷ 0x80 ∷ 0 ∷ 0 ∷ 0 ∷ 0 ∷ 0 ∷ 0 ∷ 0 ∷ 0 ∷ 0 ∷ 0xff ∷ 0xfe ∷ 0 ∷ 0x12 ∷ 0x34 ∷ []
unfolding link_local
link_local_address = refl

packets_sent : (run commands start).sent ≡ packets 255 0x1234 (sizes commands) ++ []
packets_sent = sent-run commands start

from_shell :
    run_line (codes "send" ∷ codes "3" ∷ []) (boot 511 0x1234)
    ≡ send (codes "send" ∷ codes "3" ∷ []) start
unfolding run_line boot str_eq
from_shell = refl
