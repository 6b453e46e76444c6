-- ===== src/Stacks.antt =====
-- stack_comparison/time_tx/gnrc/stack.c and emb6/stack.c: how one interface of the experiments is
-- put on two network stacks. What they call of the stacks is recorded, in order; the calls without
-- arguments that start parts of a stack are not.
pub mod Emb6
pub mod Gnrc
pub mod Addresses
mod Tests
use riot_playground.Common.{ℕ, List, [], ◌∷◌, ◌++◌, replicate}

pub data Call : Type 0 where
  -- gnrc_ipv6_nc_add, gnrc_ipv6_netif_add_addr, fib_add_entry, gnrc_rpl_init, gnrc_rpl_root_init
  nc_add : ℕ → List ℕ → List ℕ → ℕ → Call
  netif_add_addr : ℕ → List ℕ → ℕ → Call
  fib_add : ℕ → List ℕ → ℕ → List ℕ → Call
  gnrc_rpl_init : ℕ → Call
  gnrc_rpl_root : List ℕ → Call
  -- uip_ds6_nbr_add, uip_ds6_addr_add, uip_ds6_route_add, rpl_init, rpl_set_root
  nbr_add : List ℕ → List ℕ → Call
  addr_add : List ℕ → Call
  route_add : List ℕ → ℕ → List ℕ → Call
  rpl_init : Call
  rpl_set_root : List ℕ → Call

-- The address that both build for a device: that with the interface identifier, which the driver
-- gives, below the prefix. `init_prefix` is `ipv6_addr_init_prefix`.
abbrev pub with_prefix : (List ℕ → List ℕ → ℕ → List ℕ) → List ℕ → List ℕ → ℕ → List ℕ
with_prefix init_prefix iid prefix prefix_len = init_prefix (replicate 8 0 ++ iid) prefix prefix_len
