-- ===== src/GnrcHost/Tests.antt =====
-- The command at a concrete input: sending stops for want of an IPv6 header.
use riot_playground.Common.{ℕ, zero, refl, List, [], ◌∷◌, Bool, true, codes}
use riot_playground.GnrcHost.{Outcome, goes_out, no_ip_header, initial, udp_cmd}
use riot_playground.GnrcHost.Consistent.{IsConsistent, udp_cmd-IsConsistent}

abbrev any : List ℕ → Bool
any s = true

abbrev outcomes : ℕ → Outcome
outcomes i = elim i [ zero ↦ goes_out | _ ↦ no_ip_header ]

abbrev send_three : List (List ℕ)
send_three =
    codes "udp" ∷ codes "send" ∷ codes "ff02::1" ∷ codes "8808" ∷ codes "abc" ∷ codes "3" ∷ []

initial-IsConsistent : IsConsistent (initial 0xffff)
initial-IsConsistent = record { one_entry = refl; no_snip = refl }

udp_cmd-IsConsistent_run : IsConsistent (udp_cmd any outcomes 6 send_three (initial 0xffff)).1
udp_cmd-IsConsistent_run =
    udp_cmd-IsConsistent any outcomes 6 send_three (initial 0xffff) initial-IsConsistent
