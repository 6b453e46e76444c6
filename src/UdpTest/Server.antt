-- ===== src/UdpTest/Server.antt =====
-- The server: its registration, its thread, and its count.
use riot_playground.Common.{
  ℕ, zero, suc, ◌+◌, ◌≡◌, refl, ◌∙◌, ◌⊎◌, inl, List, [], ◌∷◌, ◌++◌, Bool, true, false, not, ◌==◌,
  if◌then◌else◌, Option, arith, ltb, length,
}
use riot_playground.Common.Chars.{atoi, int_to_u32}
use riot_playground.UdpTest.{
  Udp, Message, rcv, get_or_set, reset, Outcome, event_turn, send, send_loop, send_one,
  start_server, stop_server, udp_cmd, initial, arg, send_branch, server_branch, reset_branch,
}
use riot_playground.UdpTest.Sending.{snips-send_loop}

-- The entry is registered exactly while it names a thread, which is then the server's; and the
-- command holds no snip.
pub record IsConsistent (u : Udp) : Type 0 where
  pub one_entry : u.registered ≡ not (u.server_target == 0)
  pub its_thread : (u.server_target ≡ 0) ⊎ (u.server_target ≡ u.server_pid)
  pub no_snip : u.snips ≡ 0

start_server-IsConsistent :
    (created : Option ℕ) (port_str : List ℕ) (u : Udp)
    → IsConsistent u
    → IsConsistent (start_server created port_str u)
unfolding start_server
start_server-IsConsistent created port_str u v = ground arith

stop_server-IsConsistent : (u : Udp) → IsConsistent u → IsConsistent (stop_server u)
unfolding stop_server
stop_server-IsConsistent u v = ground arith

event_turn-IsConsistent : (m : Message) (u : Udp) → IsConsistent u → IsConsistent (event_turn m u)
unfolding event_turn
event_turn-IsConsistent rcv u v = ground arith
event_turn-IsConsistent get_or_set u v = v
event_turn-IsConsistent reset u v = ground arith

SameServer-send_one :
    (outcome : Outcome) (data_len port : ℕ) (u : Udp)
    → let u' = (send_one outcome data_len port u).1 in
      (u'.registered ≡ u.registered)
      × (u'.server_target ≡ u.server_target)
      × (u'.server_pid ≡ u.server_pid)
      × (u'.server_port ≡ u.server_port)
unfolding send_one
SameServer-send_one Outcome.no_payload data_len port u = (refl, refl, refl, refl)
SameServer-send_one Outcome.no_udp_header data_len port u = (refl, refl, refl, refl)
SameServer-send_one Outcome.no_ip_header data_len port u = (refl, refl, refl, refl)
SameServer-send_one Outcome.no_thread data_len port u = (refl, refl, refl, refl)
SameServer-send_one Outcome.goes_out data_len port u = (refl, refl, refl, refl)

abbrev pub SameServer : Udp → Udp → Type 0
SameServer u u' =
    (u'.registered ≡ u.registered)
    × (u'.server_target ≡ u.server_target)
    × (u'.server_pid ≡ u.server_pid)
    × (u'.server_port ≡ u.server_port)

pub SameServer-send_loop :
    (outcome : ℕ → Outcome) (data_len port n i : ℕ) (u : Udp)
    → SameServer u (send_loop outcome data_len port n i u)
unfolding send_loop
SameServer-send_loop outcome data_len port zero i u = (refl, refl, refl, refl)
SameServer-send_loop outcome data_len port (suc n) i u =
    goes (send_one (outcome i) data_len port u).0 (
      SameServer-send_loop outcome data_len port n (i + 1) (send_one (outcome i) data_len port u).1)
  where
    u' : Udp
    u' = (send_one (outcome i) data_len port u).1

    kept : SameServer u u'
    kept = SameServer-send_one (outcome i) data_len port u

    goes :
        (b : Bool)
        → SameServer u' (send_loop outcome data_len port n (i + 1) u')
        → SameServer u (elim b as (λ c. Udp) [
          | true ↦ send_loop outcome data_len port n (i + 1) u'
          | false ↦ u'
        ])
    goes true (r1, r2, r3, r4) = let (k1, k2, k3, k4) = kept in (r1 ∙ k1, r2 ∙ k2, r3 ∙ k3, r4 ∙ k4)
    goes false rest = kept

send-IsConsistent :
    (is_addr : List ℕ → Bool) (outcome : ℕ → Outcome) (a p d : List ℕ) (num : ℕ) (u : Udp)
    → IsConsistent u
    → IsConsistent (send is_addr outcome a p d num u)
unfolding send
send-IsConsistent is_addr outcome a p d num u v =
    grind (arith, SameServer-send_loop, snips-send_loop)

module _ (is_addr : List ℕ → Bool) (outcome : ℕ → Outcome) (created : Option ℕ) where
  send_branch-IsConsistent :
      (argv : List (List ℕ)) (u : Udp)
      → IsConsistent u
      → IsConsistent (send_branch is_addr outcome created argv u).1
  unfolding send_branch
  send_branch-IsConsistent argv u v =
      let num = if ltb 5 (length argv) then int_to_u32 (atoi (arg argv 5)) else 1 in
      ground
        (arith, send-IsConsistent is_addr outcome (arg argv 2) (arg argv 3) (arg argv 4) num u v)

  server_branch-IsConsistent :
      (argv : List (List ℕ)) (u : Udp)
      → IsConsistent u
      → IsConsistent (server_branch is_addr outcome created argv u).1
  unfolding server_branch
  server_branch-IsConsistent argv u v =
      ground
        (arith, start_server-IsConsistent created (arg argv 3) u v, stop_server-IsConsistent u v)

  reset_branch-IsConsistent :
      (u : Udp) → IsConsistent u → IsConsistent (reset_branch is_addr outcome created u).1
  unfolding reset_branch
  reset_branch-IsConsistent u v = ground arith

  udp_cmd-IsConsistent :
      (argv : List (List ℕ)) (u : Udp)
      → IsConsistent u
      → IsConsistent (udp_cmd is_addr outcome created argv u).1
  unfolding udp_cmd
  udp_cmd-IsConsistent argv u v = ground (
    arith,
    send_branch-IsConsistent argv u v,
    server_branch-IsConsistent argv u v,
    reset_branch-IsConsistent u v,
  )

module _ (is_addr : List ℕ → Bool) where
  -- Commands; a packet for the port of a registered entry, and any other message; and a turn of
  -- the server's thread.
  pub data Step (u : Udp) : Udp → Type 0 where
    command :
        (outcome : ℕ → Outcome) (created : Option ℕ) (argv : List (List ℕ))
        → Step u (udp_cmd is_addr outcome created argv u).1
    packet : u.registered ≡ true → Step u (record u { inbox = u.inbox ++ rcv ∷ [] })
    option : Step u (record u { inbox = u.inbox ++ get_or_set ∷ [] })
    turn :
        (m : Message) (ms : List Message)
        → u.inbox ≡ m ∷ ms
        → Step u (event_turn m (record u { inbox = ms }))

  pub data Reach : Udp → Type 0 where
    boot : Reach initial
    next : {u u' : Udp} → Reach u → Step u u' → Reach u'

  Step-IsConsistent : {u u' : Udp} → Step u u' → IsConsistent u → IsConsistent u'
  Step-IsConsistent {u} (command outcome created argv) v =
      udp_cmd-IsConsistent is_addr outcome created argv u v
  Step-IsConsistent (packet r) v = record {
    one_entry = v.one_entry;
    its_thread = v.its_thread;
    no_snip = v.no_snip;
  }
  Step-IsConsistent option v = record {
    one_entry = v.one_entry;
    its_thread = v.its_thread;
    no_snip = v.no_snip;
  }
  Step-IsConsistent {u} (turn m ms e) v =
      event_turn-IsConsistent m (record u { inbox = ms })
        (record { one_entry = v.one_entry; its_thread = v.its_thread; no_snip = v.no_snip })

  -- After any commands, packets and turns of the server's thread, whatever calls of RIOT fail: the
  -- server's entry is registered exactly while it names a thread, that thread is the server's, and
  -- the command holds no snip of the packet buffer.
  pub Reach-IsConsistent : {u : Udp} → Reach u → IsConsistent u
  Reach-IsConsistent boot = record { one_entry = refl; its_thread = inl refl; no_snip = refl }
  Reach-IsConsistent (next r s) = Step-IsConsistent s (Reach-IsConsistent r)
