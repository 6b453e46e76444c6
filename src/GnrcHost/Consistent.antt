-- ===== src/GnrcHost/Consistent.antt =====
-- The server's entry is registered while the server runs, and no snip is lost.
use riot_playground.Common.{
  ℕ, zero, suc, ◌+◌, ◌≡◌, refl, ◌∙◌, List, Bool, true, false, not, ◌==◌, arith,
}
use riot_playground.GnrcHost.{
  Host, Outcome, no_payload, no_udp_header, no_ip_header, no_thread, goes_out, send_one, send_loop,
  send, start_server, stop_server, arg, send_branch, server_branch, udp_cmd,
}

-- The entry is registered exactly while it names a thread, and the command holds no snip.
pub record IsConsistent (h : Host) : Type 0 where
  pub one_entry : h.registered ≡ not (h.server_pid == 0)
  pub no_snip : h.snips ≡ 0

send_one-IsConsistent :
    (outcome : Outcome) (text : List ℕ) (port : ℕ) (h : Host)
    → IsConsistent h
    → IsConsistent (send_one outcome text port h).1
unfolding send_one
send_one-IsConsistent no_payload text port h v = v
send_one-IsConsistent no_udp_header text port h v = ground arith
send_one-IsConsistent no_ip_header text port h v = ground arith
send_one-IsConsistent no_thread text port h v = ground arith
send_one-IsConsistent goes_out text port h v = ground arith

send_loop-IsConsistent :
    (outcome : ℕ → Outcome) (text : List ℕ) (port n i : ℕ) (h : Host)
    → IsConsistent h
    → IsConsistent (send_loop outcome text port n i h)
unfolding send_loop
send_loop-IsConsistent outcome text port zero i h v = v
send_loop-IsConsistent outcome text port (suc n) i h v =
    let kept = send_one-IsConsistent (outcome i) text port h v in
    let h' : Host = (send_one (outcome i) text port h).1 in
    let rest = send_loop-IsConsistent outcome text port n (i + 1) h' kept in
    elim (send_one (outcome i) text port h).0
      as (λ b.
        IsConsistent (elim b as (λ c. Host) [
          | true ↦ send_loop outcome text port n (i + 1) h'
          | false ↦ h'
        ])) [ true ↦ rest | false ↦ kept ]

-- What sending leaves alone.
abbrev pub SameServer : Host → Host → Type 0
SameServer h h' = (h'.server_pid ≡ h.server_pid) × (h'.demux_ctx ≡ h.demux_ctx)

SameServer-send_one :
    (outcome : Outcome) (text : List ℕ) (port : ℕ) (h : Host)
    → SameServer h (send_one outcome text port h).1
unfolding send_one
SameServer-send_one no_payload text port h = (refl, refl)
SameServer-send_one no_udp_header text port h = (refl, refl)
SameServer-send_one no_ip_header text port h = (refl, refl)
SameServer-send_one no_thread text port h = (refl, refl)
SameServer-send_one goes_out text port h = (refl, refl)

pub SameServer-send_loop :
    (outcome : ℕ → Outcome) (text : List ℕ) (port n i : ℕ) (h : Host)
    → SameServer h (send_loop outcome text port n i h)
unfolding send_loop
SameServer-send_loop outcome text port zero i h = (refl, refl)
SameServer-send_loop outcome text port (suc n) i h =
    let (k1, k2) = SameServer-send_one (outcome i) text port h in
    let h' : Host = (send_one (outcome i) text port h).1 in
    let (r1, r2) = SameServer-send_loop outcome text port n (i + 1) h' in
    elim (send_one (outcome i) text port h).0
      as (λ b.
        SameServer h (elim b as (λ c. Host) [
          | true ↦ send_loop outcome text port n (i + 1) h'
          | false ↦ h'
        ])) [ true ↦ (r1 ∙ k1, r2 ∙ k2) | false ↦ (k1, k2) ]

start_server-IsConsistent :
    (pktdump : ℕ) (port_str : List ℕ) (h : Host)
    → IsConsistent h
    → IsConsistent (start_server pktdump port_str h)
unfolding start_server
start_server-IsConsistent pktdump port_str h v = ground arith

stop_server-IsConsistent : (h : Host) → IsConsistent h → IsConsistent (stop_server h)
unfolding stop_server
stop_server-IsConsistent h v = ground arith

module _ (is_addr : List ℕ → Bool) (outcome : ℕ → Outcome) (pktdump : ℕ) where
  send_branch-IsConsistent :
      (argv : List (List ℕ)) (h : Host)
      → IsConsistent h
      → IsConsistent (send_branch is_addr outcome pktdump argv h).1
  unfolding send_branch send
  send_branch-IsConsistent argv h v = grind (arith, send_loop-IsConsistent)

  server_branch-IsConsistent :
      (argv : List (List ℕ)) (h : Host)
      → IsConsistent h
      → IsConsistent (server_branch is_addr outcome pktdump argv h).1
  unfolding server_branch
  server_branch-IsConsistent argv h v =
      ground
        (arith, start_server-IsConsistent pktdump (arg argv 3) h v, stop_server-IsConsistent h v)

  -- A command, whatever calls of RIOT fail in it, leaves the server's entry registered exactly
  -- while it names a thread, and has released or handed over every snip that it allocated.
  pub udp_cmd-IsConsistent :
      (argv : List (List ℕ)) (h : Host)
      → IsConsistent h
      → IsConsistent (udp_cmd is_addr outcome pktdump argv h).1
  unfolding udp_cmd
  udp_cmd-IsConsistent argv h v =
      ground (arith, send_branch-IsConsistent argv h v, server_branch-IsConsistent argv h v)
