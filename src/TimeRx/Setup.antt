-- ===== src/TimeRx/Setup.antt =====
-- stack_comparison/time_rx/gnrc/exp.c: the addresses that `exp_run` sets up, the routes of
-- STACK_MULTIHOP, and the lines of EXP_STACKTEST. What RIOT does with an IPv6 address is a parameter.
pub mod Elided
mod Tests
use Prim.Native.Nat.{bit_xor}
use riot_playground.Common.{
  ℕ, List, [], ◌∷◌, ◌++◌, Bool, not, ◌&&◌, ◌||◌, Option, none, some, if◌then◌else◌, get_or, set,
  replicate, write_at, true, false,
}
use riot_playground.Common.Chars.{str_eq, codes}
use riot_playground.Stacks.{Call}
use riot_playground.Stacks.Gnrc.{stack_add_prefix, stack_add_route, stack_init_rpl}
use riot_playground.TimeRx.Buffers.Loop.{dst_l2}

-- EXP_ADDR
abbrev pub exp_addr : List ℕ
exp_addr =
    0xfe ∷ 0x80 ∷ 0 ∷ 0 ∷ 0 ∷ 0 ∷ 0 ∷ 0 ∷ 0x00 ∷ 0x12 ∷ 0x34 ∷ 0x56 ∷ 0x78 ∷ 0x9a ∷ 0xbc ∷ 0xde ∷ []

-- EXP_PREFIX
abbrev pub exp_prefix : List ℕ
exp_prefix = 0xab ∷ 0xcd ∷ replicate 14 0

abbrev pub exp_prefix_len : ℕ
exp_prefix_len = 16

-- `dst` once `exp_run` has set it up. `link_local` is `ipv6_addr_set_link_local_prefix`, `set_aiid`
-- is `ipv6_addr_set_aiid`.
unfoldable pub init_dst : (List ℕ → List ℕ) → (List ℕ → List ℕ → List ℕ) → List ℕ
init_dst link_local set_aiid =
    let dst = set_aiid (link_local (replicate 16 0)) dst_l2 in
    set dst 8 (bit_xor (get_or dst 8 0) 0x02)

-- `_init_ipv6`, on `uncomp_buffer`.
unfoldable pub init_ipv6 : List ℕ → List ℕ → List ℕ → List ℕ
init_ipv6 src dst buf = write_at (write_at buf 8 src) 24 dst

-- The calls under STACK_MULTIHOP; `rpl` is STACK_RPL, and `gua` the address that
-- `stack_add_prefix` gives.
unfoldable pub multihop :
    (List ℕ → List ℕ → ℕ → List ℕ)
    → (ℕ → List ℕ)
    → (List ℕ → Bool)
    → ℕ
    → List ℕ
    → Bool
    → Bool
    → List ℕ
    → List ℕ
    → List Call
unfolding stack_add_prefix stack_add_route stack_init_rpl
multihop init_prefix iid unspecified shift pids rpl root gua dst =
    stack_add_prefix init_prefix iid pids 0 exp_prefix exp_prefix_len
    ++ stack_add_route unspecified shift pids 0 (replicate 16 0) 0 dst
    ++ (if rpl then stack_init_rpl root pids 0 gua else [])

-- An entry of `sched_threads`, with the bytes of its stack that were never used.
pub record Thread : Type 0 where
  pub name : List ℕ
  pub stack_size : ℕ
  pub stack_free : ℕ

abbrev pub is_measured : Thread → Bool
is_measured p =
    not (str_eq p.name (codes "idle"))
    && not (str_eq p.name (codes "main"))
    && not (str_eq p.name (codes "exp_receiver"))

-- The lines of EXP_STACKTEST.
unfoldable pub stack_lines : List (Option Thread) → List (List ℕ × ℕ × ℕ)
stack_lines [] = []
stack_lines (none ∷ ps) = stack_lines ps
stack_lines (some p ∷ ps) =
    let rest = stack_lines ps in
    if is_measured p then (p.name, p.stack_size, p.stack_free) ∷ rest else rest
