-- ===== src/TimeRx/Setup/Elided.antt =====
-- The addresses that the compressed headers leave out.
use Prim.Native.Nat.{bit_xor}
use riot_playground.Common.{
  ℕ, ◌≤◌, ◌<◌, ◌≡◌, refl, sym, ap, ◌∙◌, List, [], ◌∷◌, ◌++◌, length, take, drop, get_or, set,
  write_at, replicate, arith, take-write_at, length-write_at, take-write_at, length-write_at,
}
use riot_playground.Netdev.{netdev_init, fresh}
use riot_playground.Netdev.Devices.{netdev_init_lem}
use riot_playground.LwipStack.{stack_iids}
use riot_playground.LwipStack.Neighbors.{stack_iids_lem}
use riot_playground.TimeRx.Buffers.Loop.{src_l2, dst_l2}
use riot_playground.TimeRx.Setup.{exp_addr, init_dst, init_ipv6}

-- fe80::/64
abbrev pub link_local_prefix : List ℕ
link_local_prefix = 0xfe ∷ 0x80 ∷ replicate 6 0

-- The address that a receiver of RFC 6282 takes in place of one that is left out: link-local, with
-- the interface identifier of the long address of the frame.
abbrev pub elided : List ℕ → List ℕ
elided l2 = link_local_prefix ++ set l2 0 (bit_xor (get_or l2 0 0) 0x02)

dst-elided :
    (link_local : List ℕ → List ℕ) (set_aiid : List ℕ → List ℕ → List ℕ)
    → ((addr : List ℕ) → link_local addr ≡ link_local_prefix ++ drop 8 addr)
    → ((addr iid : List ℕ) → set_aiid addr iid ≡ take 8 addr ++ iid)
    → init_dst link_local set_aiid ≡ elided dst_l2
unfolding init_dst
dst-elided link_local set_aiid prefixed identified =
    let zeros : List ℕ = replicate 16 0 in
    ap (λ a. set (set_aiid a dst_l2) 8 (bit_xor (get_or (set_aiid a dst_l2) 8 0) 0x02))
      (prefixed zeros)
    ∙ ap (λ a. set a 8 (bit_xor (get_or a 8 0) 0x02))
        (identified (link_local_prefix ++ drop 8 zeros) dst_l2)

-- The frames of `exp_run` go to the long address of the first device, and the IPv6 header that the
-- checksums are computed over has the addresses that a receiver of RFC 6282 takes for those that
-- the compressed headers leave out: link-local ones with the identifiers of the two long addresses.
-- The identifier of the destination is that which lwIP's interface of the device gets. This supposes
-- that `ipv6_addr_set_link_local_prefix` sets the first eight bytes and `ipv6_addr_set_aiid` the
-- others, that `uncomp_buffer` has room
-- for the header, and that there is a device, and fewer than 256.
pub elided_addresses :
    (link_local : List ℕ → List ℕ) (set_aiid : List ℕ → List ℕ → List ℕ) (buf : List ℕ) (numof : ℕ)
    → ((addr : List ℕ) → link_local addr ≡ link_local_prefix ++ drop 8 addr)
    → ((addr iid : List ℕ) → set_aiid addr iid ≡ take 8 addr ++ iid)
    → 40 ≤ length buf
    → 0 < numof
    → numof < 256
    → let dst = init_dst link_local set_aiid in
      (dst_l2 ≡ (get_or (netdev_init numof) 0 fresh).long_addr)
      × (drop 8 dst ≡ get_or (stack_iids numof) 0 [])
      × (take 40 (init_ipv6 exp_addr dst buf) ≡ (take 8 buf ++ elided src_l2) ++ elided dst_l2)
unfolding init_ipv6
elided_addresses link_local set_aiid buf numof prefixed identified room some_device few =
    let same = dst-elided link_local set_aiid prefixed identified in
    let long = (netdev_init_lem numof 0 few some_device).0 in
    let with_src = write_at buf 8 exp_addr in
    (
      sym long,
      ap (drop 8) same ∙ sym (stack_iids_lem numof 0 some_device (omega arith)),
      ap (λ dst. take 40 (write_at with_src 24 dst)) same
          ∙ take-write_at with_src 24 40 (elided dst_l2) refl
              (omega (arith, length-write_at buf 8 exp_addr))
          ∙ ap (λ bs. bs ++ elided dst_l2) (take-write_at buf 8 24 exp_addr refl (omega arith)),
    )
