-- ===== src/Stacks/Gnrc.antt =====
-- stack_comparison/time_tx/gnrc/stack.c.
use riot_playground.Common.{
  ℕ, zero, suc, ◌+◌, ◌*◌, ◌^◌, List, [], ◌∷◌, Bool, true, false, if◌then◌else◌, u32, get_or, set,
  replicate,
}
use riot_playground.Stacks.{
  Call, nc_add, netif_add_addr, fib_add, gnrc_rpl_init, gnrc_rpl_root, with_prefix,
}

-- The loop of `stack_init` for `n` more devices, the first of them number `i`: whether it came to
-- its end, and `_pids`. `fails` is what the glue code answers for a device, `pid` the thread that
-- `gnrc_netdev2_init` starts for it.
unfoldable pub init_devices : (ℕ → Bool) → (ℕ → ℕ) → ℕ → ℕ → List ℕ → Bool × List ℕ
init_devices fails pid zero i pids = (true, pids)
init_devices fails pid (suc n) i pids =
    let rest = init_devices fails pid n (i + 1) (set pids i (pid i)) in
    if fails i then (false, pids) else rest

-- `stack_init` for NETDEV_NUMOF devices: whether the IPv6 interfaces are set up, and `_pids`.
unfoldable pub stack_init : (ℕ → Bool) → (ℕ → ℕ) → ℕ → Bool × List ℕ
unfolding init_devices
stack_init fails pid numof = init_devices fails pid numof 0 (replicate numof 0)

abbrev pub pid_of : List ℕ → ℕ → ℕ
pid_of pids iface = get_or pids iface 0

unfoldable pub stack_add_neighbor : List ℕ → ℕ → List ℕ → List ℕ → ℕ → List Call
stack_add_neighbor pids iface ipv6_addr l2_addr l2_addr_len =
    nc_add (pid_of pids iface) ipv6_addr l2_addr l2_addr_len ∷ []

-- The address with the prefix is computed, and not used.
unfoldable pub stack_add_prefix :
    (List ℕ → List ℕ → ℕ → List ℕ) → (ℕ → List ℕ) → List ℕ → ℕ → List ℕ → ℕ → List Call
stack_add_prefix init_prefix iid pids iface prefix prefix_len =
    let addr = with_prefix init_prefix (iid iface) prefix prefix_len in
    netif_add_addr (pid_of pids iface) prefix prefix_len ∷ []

-- `shift` is FIB_FLAG_NET_PREFIX_SHIFT.
unfoldable pub stack_add_route : (List ℕ → Bool) → ℕ → List ℕ → ℕ → List ℕ → ℕ → List ℕ → List Call
stack_add_route unspecified shift pids iface prefix prefix_len next_hop =
    let prefix_flags = if unspecified prefix then u32 (prefix_len * 2 ^ shift) else 0 in
    fib_add (pid_of pids iface) prefix prefix_flags next_hop ∷ []

-- `root` is STACK_RPL_ROOT.
unfoldable pub stack_init_rpl : Bool → List ℕ → ℕ → List ℕ → List Call
stack_init_rpl root pids iface dodag_id =
    gnrc_rpl_init (pid_of pids iface) ∷ (if root then gnrc_rpl_root dodag_id ∷ [] else [])
