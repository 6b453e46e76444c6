-- ===== src/Netdev/Devices.antt =====
-- Each device has its own addresses and answers every option.
use riot_playground.Common.{
  ℕ, zero, suc, ◌+◌, ◌<◌, ◌≡◌, refl, ap, ◌∙◌, List, [], ◌∷◌, Bool, true, false, Option, none, some,
  if◌then◌else◌, arith, get_or,
}
use riot_playground.Netdev.{
  NetOpt, src_len, max_packet_size, address, address_long, addr_len, nid, proto, device_type,
  ipv6_iid, Callback, get_max_pkt_size, driver_get, init_device, init_from, netdev_init, fresh,
}

opt_eq : NetOpt → NetOpt → Bool
opt_eq src_len src_len = true
opt_eq max_packet_size max_packet_size = true
opt_eq address address = true
opt_eq address_long address_long = true
opt_eq addr_len addr_len = true
opt_eq nid nid = true
opt_eq proto proto = true
opt_eq device_type device_type = true
opt_eq ipv6_iid ipv6_iid = true
opt_eq o p = false

-- The callback that counts: the one registered last.
pub callback : NetOpt → List (NetOpt × Callback) → Option Callback
callback o [] = none
callback o ((p, cb) ∷ cbs) = if opt_eq o p then some cb else callback o cbs

-- The callback that reads an option: all but the largest size of a packet go to the driver, and the
-- length of the source address is read as the length of the address.
unfoldable pub reader : NetOpt → Callback
reader src_len = driver_get addr_len
reader max_packet_size = get_max_pkt_size
reader address = driver_get address
reader address_long = driver_get address_long
reader addr_len = driver_get addr_len
reader nid = driver_get nid
reader proto = driver_get proto
reader device_type = driver_get device_type
reader ipv6_iid = driver_get ipv6_iid

-- The address of device `i`.
abbrev pub addr_of : ℕ → List ℕ
addr_of i = 2 ∷ 1 ∷ 2 ∷ 3 ∷ 4 ∷ 5 ∷ 6 ∷ i ∷ []

init_from-get_or :
    (n i k j : ℕ)
    → k < n
    → get_or (init_from n i (addr_of j)) k fresh ≡ init_device (addr_of (i + k))
unfolding init_from
init_from-get_or zero i k j h = absurd (omega arith)
init_from-get_or (suc n) i zero j h =
    let same : i ≡ i + 0 = omega arith in ap (λ m. init_device (addr_of m)) same
init_from-get_or (suc n) i (suc k) j h =
    let same : i + 1 + k ≡ i + suc k = omega arith in
    init_from-get_or n (i + 1) k i (omega arith) ∙ ap (λ m. init_device (addr_of m)) same

reads : (o : NetOpt) (addr : List ℕ) → callback o (init_device addr).getters ≡ some (reader o)
unfolding callback reader opt_eq init_device
reads src_len addr = refl
reads max_packet_size addr = refl
reads address addr = refl
reads address_long addr = refl
reads addr_len addr = refl
reads nid addr = refl
reads proto addr = refl
reads device_type addr = refl
reads ipv6_iid addr = refl

-- Device `i` of `numof` (fewer than 256) has the prefix with the number `i` as its long address,
-- the last two bytes of that as its short one, so that two devices have no address in common, and
-- reads each option by the callback of `reader`; in particular, `get_src_len` is never called. The
-- only option that can be written is the length of the source address, and goes to the driver as
-- the length of the address.
pub netdev_init_lem :
    (numof i : ℕ)
    → numof < 256
    → i < numof
    → let d = get_or (netdev_init numof) i fresh in
      (d.long_addr ≡ addr_of i)
      × (d.short_addr ≡ 6 ∷ i ∷ [])
      × ((o : NetOpt) → callback o d.getters ≡ some (reader o))
      × (d.setters ≡ (src_len, addr_len) ∷ [])
unfolding netdev_init init_device
netdev_init_lem numof i few h =
    let here : get_or (netdev_init numof) i fresh ≡ init_device (addr_of i) =
      let number : 0 + i ≡ i = omega arith in
      init_from-get_or numof 0 i 0 h ∙ ap (λ m. init_device (addr_of m)) number in
    rw here (refl, refl, λ o. reads o (addr_of i), refl)
