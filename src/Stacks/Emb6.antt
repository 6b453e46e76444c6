-- ===== src/Stacks/Emb6.antt =====
-- stack_comparison/time_tx/emb6/stack.c. There is one interface, whatever `iface` is.
use riot_playground.Common.{ℕ, List, [], ◌∷◌, Bool, Option, none, some, if◌then◌else◌}
use riot_playground.Stacks.{Call, nbr_add, addr_add, route_add, rpl_init, rpl_set_root, with_prefix}

unfoldable pub stack_add_neighbor : ℕ → List ℕ → List ℕ → ℕ → List Call
stack_add_neighbor iface ipv6_addr l2_addr l2_addr_len = nbr_add ipv6_addr l2_addr ∷ []

unfoldable pub stack_add_prefix :
    (List ℕ → List ℕ → ℕ → List ℕ) → (ℕ → List ℕ) → ℕ → List ℕ → ℕ → List Call
stack_add_prefix init_prefix iid iface prefix prefix_len =
    addr_add (with_prefix init_prefix (iid iface) prefix prefix_len) ∷ []

-- `added` is the lifetime of the route that `uip_ds6_route_add` gives, if it gives one: the calls,
-- and the lifetime after them.
unfoldable pub stack_add_route : Option ℕ → ℕ → List ℕ → ℕ → List ℕ → List Call × Option ℕ
stack_add_route added iface prefix prefix_len next_hop = (
  route_add prefix prefix_len next_hop ∷ [],
  elim added [ none ↦ none | some lifetime ↦ some 0xffffffff ],
)

unfoldable pub stack_init_rpl : Bool → ℕ → List ℕ → List Call
stack_init_rpl root iface dodag_id = rpl_init ∷ (if root then rpl_set_root dodag_id ∷ [] else [])
