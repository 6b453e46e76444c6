-- ===== src/LwipStack/Neighbors.antt =====
-- What the entry of a neighbour changes in the cache.
use riot_playground.Common.{
  ℕ, zero, suc, ◌+◌, ◌<◌, ◌≡◌, refl, ap, ◌∙◌, ◌⊎◌, inl, inr, List, [], ◌∷◌, ◌++◌, true, false,
  arith, get_or, u8, All, Bool-cases,
}
use riot_playground.LwipStack.{Neighbor, is_free, occupy, stack_add_neighbor, iids_from, stack_iids}

abbrev pub IsTaken : Neighbor → Type 0
IsTaken n = is_free n ≡ false

-- A neighbour takes the first free entry of the cache and leaves all others as they are; if none is
-- free, the cache stays as it is.
pub stack_add_neighbor_lem :
    (iface : ℕ) (addr l2 : List ℕ) (len : ℕ) (cache : List Neighbor)
    → (All IsTaken cache × (stack_add_neighbor iface addr l2 len cache ≡ cache))
      ⊎ ((before : List Neighbor) × (n : Neighbor) × (after : List Neighbor) × All IsTaken before
          × (is_free n ≡ true)
          × (cache ≡ before ++ n ∷ after)
          × (stack_add_neighbor iface addr l2 len cache
              ≡ before ++ occupy iface addr l2 len n ∷ after))
unfolding stack_add_neighbor
stack_add_neighbor_lem iface addr l2 len [] = inl (tt, refl)
stack_add_neighbor_lem iface addr l2 len (n ∷ ns) = elim (Bool-cases (is_free n)) [
  | inl free ↦ inr ([], n, ns, tt, free, refl, rw free refl)
  | inr taken ↦ elim (stack_add_neighbor_lem iface addr l2 len ns) [
    | inl (all, same) ↦ inl ((taken, all), rw taken (ap (λ ms. n ∷ ms) same))
    | inr (before, m, after, all, free, split, result) ↦ inr (
      n ∷ before,
      m,
      after,
      (taken, all),
      free,
      ap (λ ms. n ∷ ms) split,
      rw taken (ap (λ ms. n ∷ ms) result),
    )
  ]
]

iids_from-get_or :
    (n i k j : ℕ)
    → k < n
    → i + k < 256
    → get_or (iids_from n i (0 ∷ 1 ∷ 2 ∷ 3 ∷ 4 ∷ 5 ∷ 6 ∷ j ∷ [])) k []
      ≡ 0 ∷ 1 ∷ 2 ∷ 3 ∷ 4 ∷ 5 ∷ 6 ∷ (i + k) ∷ []
unfolding iids_from
iids_from-get_or zero i k j h small = absurd (omega arith)
iids_from-get_or (suc n) i zero j h small =
    let same : u8 i ≡ i + 0 = omega arith in ap (λ m. 0 ∷ 1 ∷ 2 ∷ 3 ∷ 4 ∷ 5 ∷ 6 ∷ m ∷ []) same
iids_from-get_or (suc n) i (suc k) j h small =
    let same : i + 1 + k ≡ i + suc k = omega arith in
    iids_from-get_or n (i + 1) k (u8 i) (omega arith) (omega arith)
    ∙ ap (λ m. 0 ∷ 1 ∷ 2 ∷ 3 ∷ 4 ∷ 5 ∷ 6 ∷ m ∷ []) same

-- Interface `i` below 256 gets the identifier of the prefix, with the universal bit turned over, and
-- `i` as its last byte.
pub stack_iids_lem :
    (numof i : ℕ)
    → i < numof
    → i < 256
    → get_or (stack_iids numof) i [] ≡ 0 ∷ 1 ∷ 2 ∷ 3 ∷ 4 ∷ 5 ∷ 6 ∷ i ∷ []
unfolding stack_iids
stack_iids_lem numof i h small =
    let number : 0 + i ≡ i = omega arith in
    iids_from-get_or numof 0 i 0 h (omega arith)
    ∙ ap (λ m. 0 ∷ 1 ∷ 2 ∷ 3 ∷ 4 ∷ 5 ∷ 6 ∷ m ∷ []) number
