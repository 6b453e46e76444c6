-- ===== src/TimeRx/Setup/Tests.antt =====
-- The set-up at concrete inputs.
use riot_playground.Common.{
  ℕ, ◌≡◌, refl, List, [], ◌∷◌, ◌++◌, Option, none, some, take, drop, get_or, replicate,
  length-replicate, arith, true,
}
use riot_playground.Common.Chars.{codes, str_eq}
use riot_playground.Netdev.{netdev_init, fresh}
use riot_playground.LwipStack.{stack_iids}
use riot_playground.Stacks.{fib_add, netif_add_addr, gnrc_rpl_init, gnrc_rpl_root}
use riot_playground.TimeRx.Buffers.Loop.{src_l2, dst_l2}
use riot_playground.TimeRx.Setup.{
  exp_addr, exp_prefix, init_dst, init_ipv6, multihop, Thread, stack_lines,
}
use riot_playground.TimeRx.Setup.Elided.{link_local_prefix, elided, elided_addresses}

abbrev link_local : List ℕ → List ℕ
link_local addr = link_local_prefix ++ drop 8 addr

abbrev set_aiid : List ℕ → List ℕ → List ℕ
set_aiid addr iid = take 8 addr ++ iid

abbrev zeros : List ℕ
zeros = replicate 48 0

elided_addresses_example :
    let dst = init_dst link_local set_aiid in
    (dst_l2 ≡ (get_or (netdev_init 1) 0 fresh).long_addr)
    × (drop 8 dst ≡ get_or (stack_iids 1) 0 [])
    × (take 40 (init_ipv6 exp_addr dst zeros) ≡ (take 8 zeros ++ elided src_l2) ++ elided dst_l2)
elided_addresses_example =
    elided_addresses link_local set_aiid zeros 1 (λ addr. refl) (λ addr iid. refl)
      (omega (arith, length-replicate {A = ℕ} 48 0)) (omega arith) (omega arith)

-- Two threads that are measured, one that is not, and an empty entry.
abbrev threads : List (Option Thread)
threads =
    some (record { name = codes "idle"; stack_size = 256; stack_free = 100 })
    ∷ none
    ∷ some (record { name = codes "ipv6"; stack_size = 1024; stack_free = 400 })
    ∷ some (record { name = codes "idle2"; stack_size = 512; stack_free = 30 })
    ∷ []

measured : stack_lines threads ≡ (codes "ipv6", 1024, 400) ∷ (codes "idle2", 512, 30) ∷ []
unfolding stack_lines str_eq
measured = refl

-- The routes with RPL, as a root.
routed :
    multihop
      (λ addr prefix len. addr)
      (λ i. [])
      (λ addr. true)
      24
      (7 ∷ [])
      true
      true
      exp_prefix
      zeros
    ≡ netif_add_addr 7 exp_prefix 16
      ∷ fib_add 7 (replicate 16 0) 0 zeros
      ∷ gnrc_rpl_init 7
      ∷ gnrc_rpl_root exp_prefix
      ∷ []
unfolding multihop
routed = refl
