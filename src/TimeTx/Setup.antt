-- ===== src/TimeTx/Setup.antt =====
-- What `exp_run` of stack_comparison/time_tx/gnrc/exp.c does before its loops, on GNRC, and the lines of
-- EXP_STACKTEST, which are those of time_rx.
use riot_playground.Common.{
  ℕ, ◌≡◌, refl, List, ◌++◌, Bool, true, false, if◌then◌else◌, drop, replicate,
}
use riot_playground.Stacks.{Call}
use riot_playground.Stacks.Gnrc.{stack_add_neighbor}
use riot_playground.TimeRx.Buffers.Loop.{src_l2}
use riot_playground.TimeRx.Setup.{exp_addr, exp_prefix, exp_prefix_len, multihop}

-- The calls, and `dst` after them. `several_hops` is STACK_MULTIHOP, `init_prefix` is
-- `ipv6_addr_init_prefix`, and the others are those of `multihop`.
unfoldable pub set_up :
    Bool
    → (List ℕ → List ℕ → ℕ → List ℕ)
    → (ℕ → List ℕ)
    → (List ℕ → Bool)
    → ℕ
    → List ℕ
    → Bool
    → Bool
    → List ℕ
    → List Call × List ℕ
unfolding stack_add_neighbor multihop
set_up several_hops init_prefix iid unspecified shift pids rpl root gua =
    let neighbor = stack_add_neighbor pids 0 exp_addr src_l2 8 in
    let routes = multihop init_prefix iid unspecified shift pids rpl root gua exp_addr in
    if several_hops
    then (
      neighbor ++ routes,
      init_prefix (replicate 8 0 ++ drop 8 exp_addr) exp_prefix exp_prefix_len,
    )
    else (neighbor, exp_addr)

-- Both experiments take the same routes, but for their destinations.
several_hops-set_up :
    (init_prefix : List ℕ → List ℕ → ℕ → List ℕ) (iid : ℕ → List ℕ) (unspecified : List ℕ → Bool)
    (shift : ℕ) (pids : List ℕ) (root : Bool) (gua : List ℕ)
    → (set_up true init_prefix iid unspecified shift pids true root gua).0
      ≡ (set_up false init_prefix iid unspecified shift pids true root gua).0
        ++ multihop init_prefix iid unspecified shift pids true root gua exp_addr
unfolding set_up
several_hops-set_up init_prefix iid unspecified shift pids root gua = refl
