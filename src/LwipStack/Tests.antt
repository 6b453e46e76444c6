-- ===== src/LwipStack/Tests.antt =====
-- A cache with a free entry between two others.
use riot_playground.Common.{ℕ, ◌≡◌, refl, [], ◌∷◌}
use riot_playground.LwipStack.{EntryState, no_entry, unsure, Neighbor, occupy, stack_add_neighbor}

abbrev entry : EntryState → ℕ → Neighbor
entry state netif = record {
  state = state;
  next_hop = [];
  lladdr = 0 ∷ 0 ∷ [];
  netif = netif;
  reachable_time = 0;
}

first_free :
    stack_add_neighbor 5
      (0xfe ∷ [])
      (7 ∷ 8 ∷ 9 ∷ [])
      2
      (entry unsure 1 ∷ entry no_entry 2 ∷ entry no_entry 3 ∷ [])
    ≡ entry unsure 1
      ∷ occupy 5 (0xfe ∷ []) (7 ∷ 8 ∷ 9 ∷ []) 2 (entry no_entry 2)
      ∷ entry no_entry 3
      ∷ []
unfolding stack_add_neighbor
first_free = refl
