-- ===== src/Stacks/Tests.antt =====
-- The set-up of interfaces at concrete inputs.
use riot_playground.Common.{
  ℕ, ◌≡◌, ◌≢◌, refl, List, [], ◌∷◌, Bool, false, ◌==◌, get_or, drop, arith, ap,
}
use riot_playground.Stacks.Gnrc.{stack_init, pid_of}
use riot_playground.Stacks.Addresses.{accepted, stack_init_lem, address_of, prefix_addresses}
use riot_playground.Stacks.Gnrc
use riot_playground.Stacks.Emb6

-- The third device is refused.
abbrev third : ℕ → Bool
third i = i == 2

abbrev pid : ℕ → ℕ
pid i = 5

second_refused : let (up, pids) = stack_init third pid 4 in (up ≡ false) × (pid_of pids 1 ≡ 5)
unfolding accepted
second_refused = stack_init_lem third pid 4 1 (omega arith)

-- A prefix of eight bytes.
abbrev put_prefix : List ℕ → List ℕ → ℕ → List ℕ
put_prefix addr prefix len =
    get_or prefix 0 0
    ∷ get_or prefix 1 0
    ∷ get_or prefix 2 0
    ∷ get_or prefix 3 0
    ∷ get_or prefix 4 0
    ∷ get_or prefix 5 0
    ∷ get_or prefix 6 0
    ∷ get_or prefix 7 0
    ∷ drop 8 addr

abbrev iid : ℕ → List ℕ
iid i = 0 ∷ 1 ∷ 2 ∷ 3 ∷ 4 ∷ 5 ∷ 6 ∷ i ∷ []

prefix_addresses_example :
    (address_of (Emb6.stack_add_prefix put_prefix iid 0 (0xab ∷ 0xcd ∷ []) 64)
      ≢ address_of (Emb6.stack_add_prefix put_prefix iid 1 (0xab ∷ 0xcd ∷ []) 64))
    × (address_of (Gnrc.stack_add_prefix put_prefix iid (5 ∷ 6 ∷ []) 0 (0xab ∷ 0xcd ∷ []) 64)
        ≡ address_of (Gnrc.stack_add_prefix put_prefix iid (5 ∷ 6 ∷ []) 1 (0xab ∷ 0xcd ∷ []) 64))
prefix_addresses_example =
    prefix_addresses put_prefix iid (5 ∷ 6 ∷ []) (0xab ∷ 0xcd ∷ []) 0 1 64 (λ addr. refl)
      (λ same. absurd (omega (arith, ap (λ xs. get_or xs 7 0) same)))
