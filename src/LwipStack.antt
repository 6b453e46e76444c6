-- ===== src/LwipStack.antt =====
-- stack_comparison/time_tx/lwip/stack.c: the interface identifiers of the devices, and an entry in
-- lwIP's cache of neighbours. lwIP, which owns the cache, is a parameter.
pub mod Neighbors
mod Tests
use Prim.Native.Nat.{bit_xor}
use riot_playground.Common.{
  ℕ, zero, suc, ◌+◌, List, [], ◌∷◌, ◌++◌, Bool, true, false, if◌then◌else◌, get_or, set, take, u8,
  write_at,
}
use riot_playground.Netdev.{netdev_addr_prefix}

-- ND6_NO_ENTRY, ND6_REACHABLE, and the other states of lwIP.
pub data EntryState : Type 0 where
  no_entry reachable unsure : EntryState

pub record Neighbor : Type 0 where
  pub state : EntryState
  pub next_hop : List ℕ
  pub lladdr : List ℕ
  pub netif : ℕ
  pub reachable_time : ℕ

abbrev pub is_free : Neighbor → Bool
is_free n = elim n.state [ no_entry ↦ true | _ ↦ false ]

-- The entry that `stack_add_neighbor` makes of a free one.
abbrev pub occupy : ℕ → List ℕ → List ℕ → ℕ → Neighbor → Neighbor
occupy iface ipv6_addr l2_addr l2_addr_len n = record n {
  state = reachable;
  next_hop = ipv6_addr;
  lladdr = write_at n.lladdr 0 (take l2_addr_len l2_addr);
  netif = iface;
  reachable_time = 0xffffffff;
}

-- The loop over the cache.
unfoldable pub stack_add_neighbor : ℕ → List ℕ → List ℕ → ℕ → List Neighbor → List Neighbor
stack_add_neighbor iface ipv6_addr l2_addr l2_addr_len [] = []
stack_add_neighbor iface ipv6_addr l2_addr l2_addr_len (n ∷ ns) =
    let rest = stack_add_neighbor iface ipv6_addr l2_addr l2_addr_len ns in
    if is_free n then occupy iface ipv6_addr l2_addr l2_addr_len n ∷ ns else n ∷ rest

-- The identifiers that `stack_init` gives to `n` interfaces, the first of them number `i`.
unfoldable pub iids_from : ℕ → ℕ → List ℕ → List (List ℕ)
iids_from zero i iid = []
iids_from (suc n) i iid = let iid' = set iid 7 (u8 i) in iid' ∷ iids_from n (i + 1) iid'

-- `stack_init` for NETDEV_NUMOF devices.
unfoldable pub stack_iids : ℕ → List (List ℕ)
unfolding iids_from
stack_iids numof =
    iids_from numof 0 (set netdev_addr_prefix 0 (bit_xor (get_or netdev_addr_prefix 0 0) 0x02))
