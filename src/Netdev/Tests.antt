-- ===== src/Netdev/Tests.antt =====
-- The devices at a concrete number of them.
use riot_playground.Common.{◌≡◌, refl, [], ◌∷◌, some, arith, get_or}
use riot_playground.Netdev.{
  NetOpt, src_len, addr_len, max_packet_size, value, overflow, call_get, netdev_init, fresh,
}
use riot_playground.Netdev.Devices.{callback, reader, addr_of, netdev_init_lem}

netdev_init_lem_example :
    let d = get_or (netdev_init 3) 2 fresh in
    (d.long_addr ≡ addr_of 2)
    × (d.short_addr ≡ 6 ∷ 2 ∷ [])
    × ((o : NetOpt) → callback o d.getters ≡ some (reader o))
    × (d.setters ≡ (src_len, addr_len) ∷ [])
netdev_init_lem_example = netdev_init_lem 3 2 (omega arith) (omega arith)

-- The size of a packet is read into two bytes only.
max_packet_size_read :
    (call_get (reader max_packet_size) 2 ≡ value 104)
    × (call_get (reader max_packet_size) 4 ≡ overflow)
unfolding call_get reader
max_packet_size_read = (refl, refl)
