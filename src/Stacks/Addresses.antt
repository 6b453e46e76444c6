-- ===== src/Stacks/Addresses.antt =====
-- Which threads and which addresses the interfaces get.
use riot_playground.Common.{
  ℕ, zero, suc, ◌+◌, ◌≤◌, ◌<◌, ◌≡◌, ◌≢◌, refl, sym, ap, ◌∙◌, List, [], ◌∷◌, ◌++◌, Bool, true, ◌&&◌,
  not, if◌then◌else◌, get_or, set, replicate, drop, length, length-replicate, length-set,
  get_or-set_ne, get_or-set_self, arith, Bool-cases, inl, inr, get_or-replicate_lt,
}
use riot_playground.Stacks.{Call, netif_add_addr, addr_add}
use riot_playground.Stacks.Gnrc.{init_devices, stack_init, pid_of}
use riot_playground.Stacks.Gnrc
use riot_playground.Stacks.Emb6

-- Whether the glue code accepts all of `n` devices, the first of them number `i`.
unfoldable pub accepted : (ℕ → Bool) → ℕ → ℕ → Bool
accepted fails zero i = true
accepted fails (suc n) i = let rest = accepted fails n (i + 1) in not (fails i) && rest

module _ (fails : ℕ → Bool) (pid : ℕ → ℕ) where
  init_devices-done :
      (n i : ℕ) (pids : List ℕ) → (init_devices fails pid n i pids).0 ≡ accepted fails n i
  unfolding init_devices accepted
  init_devices-done zero i pids = refl
  init_devices-done (suc n) i pids = elim (Bool-cases (fails i)) [
    | inl e ↦ rw e refl
    | inr e ↦ rw e (init_devices-done n (i + 1) (set pids i (pid i)))
  ]

  -- The devices before are left alone.
  init_devices-before :
      (n i k : ℕ) (pids : List ℕ)
      → k < i
      → get_or (init_devices fails pid n i pids).1 k 0 ≡ get_or pids k 0
  unfolding init_devices
  init_devices-before zero i k pids h = refl
  init_devices-before (suc n) i k pids h = elim (Bool-cases (fails i)) [
    | inl e ↦ rw e refl
    | inr e ↦ rw e (
        init_devices-before n (i + 1) k (set pids i (pid i)) (omega arith)
        ∙ get_or-set_ne pids i k (pid i) 0 (λ same. omega arith))
  ]

  init_devices-pid :
      (n i j : ℕ) (pids : List ℕ)
      → j < n
      → i + n ≤ length pids
      → get_or (init_devices fails pid n i pids).1 (i + j) 0
        ≡ (if accepted fails (suc j) i then pid (i + j) else get_or pids (i + j) 0)
  unfolding init_devices accepted
  init_devices-pid zero i j pids h room = absurd (omega arith)
  init_devices-pid (suc n) i zero pids h room =
      let here : i + 0 ≡ i = omega arith in
      elim (Bool-cases (fails i)) [
        | inl e ↦ rw (e, here) refl
        | inr e ↦
            rw (e, here)
              (init_devices-before n (i + 1) i (set pids i (pid i)) (omega arith)
                ∙ get_or-set_self pids i (pid i) 0 (omega arith))
      ]
  init_devices-pid (suc n) i (suc j) pids h room =
      let there : i + suc j ≡ i + 1 + j = omega arith in
      elim (Bool-cases (fails i)) [
        | inl e ↦ rw e refl
        | inr e ↦
            let ih =
              init_devices-pid n (i + 1) j (set pids i (pid i)) (omega arith)
                (omega (arith, length-set pids i (pid i))) in
            let other = get_or-set_ne pids i (i + 1 + j) (pid i) 0 (λ same. omega arith) in
            rw (e, there)
              (ih ∙ ap (λ p. if accepted fails (suc j) (i + 1) then pid (i + 1 + j) else p) other)
      ]

-- `stack_init` sets up the IPv6 interfaces exactly if the glue code accepts every device, and a
-- device has its thread in `_pids` exactly if it and all devices before it are accepted; the others
-- keep the 0 of an undefined thread.
pub stack_init_lem :
    (fails : ℕ → Bool) (pid : ℕ → ℕ) (numof k : ℕ)
    → k < numof
    → let (up, pids) = stack_init fails pid numof in
      (up ≡ accepted fails numof 0)
      × (pid_of pids k ≡ (if accepted fails (suc k) 0 then pid k else 0))
unfolding stack_init
stack_init_lem fails pid numof k h =
    let none_yet : List ℕ = replicate numof 0 in
    let start : get_or none_yet k 0 ≡ 0 = get_or-replicate_lt numof k 0 0 h in
    let number : 0 + k ≡ k = omega arith in
    let given =
      init_devices-pid fails pid numof 0 k none_yet h
        (omega (arith, length-replicate {A = ℕ} numof 0)) in
    (
      init_devices-done fails pid numof 0 none_yet,
      rw number at given ∙ ap (λ p. if accepted fails (suc k) 0 then pid k else p) start,
    )

-- The address that a call hands to its stack.
abbrev pub address_of : List Call → List ℕ
address_of (netif_add_addr pid addr len ∷ calls) = addr
address_of (addr_add addr ∷ calls) = addr
address_of calls = []

-- Two devices with different interface identifiers get different addresses below a prefix on emb6,
-- but the same one on GNRC, which is given the prefix instead of the address. This supposes that
-- `ipv6_addr_init_prefix` leaves the last eight bytes of an address as they are for this prefix.
pub prefix_addresses :
    (init_prefix : List ℕ → List ℕ → ℕ → List ℕ) (iid : ℕ → List ℕ) (pids prefix : List ℕ)
    (i j len : ℕ)
    → ((addr : List ℕ) → drop 8 (init_prefix addr prefix len) ≡ drop 8 addr)
    → iid i ≢ iid j
    → (address_of (Emb6.stack_add_prefix init_prefix iid i prefix len)
        ≢ address_of (Emb6.stack_add_prefix init_prefix iid j prefix len))
      × (address_of (Gnrc.stack_add_prefix init_prefix iid pids i prefix len)
          ≡ address_of (Gnrc.stack_add_prefix init_prefix iid pids j prefix len))
unfolding Emb6.stack_add_prefix Gnrc.stack_add_prefix
prefix_addresses init_prefix iid pids prefix i j len keeps differ = (
  (λ same.
      differ
        (sym (keeps (replicate 8 0 ++ iid i)) ∙ ap (drop 8) same ∙ keeps (replicate 8 0 ++ iid j))),
  refl,
)
