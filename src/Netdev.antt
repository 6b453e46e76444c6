-- ===== src/Netdev.antt =====
-- stack_comparison/time_tx/gnrc/netdev.c: the test devices, their addresses and the callbacks that
-- answer the options of the network stack. RIOT's netdev2_test, which keeps the callbacks, is a
-- parameter: what is modelled are the calls that register them, the last one for an option being
-- the one that counts.
pub mod Devices
mod Tests
use riot_playground.Common.{
  ℕ, zero, suc, ◌+◌, ◌-◌, List, [], ◌∷◌, ◌++◌, Bool, true, false, not, Option, none, some, ◌==◌,
  if◌then◌else◌, u8, get_or, set, take, drop,
}

pub data NetOpt : Type 0 where
  src_len max_packet_size address address_long addr_len nid proto device_type ipv6_iid : NetOpt

-- The callbacks for reading: the two that answer themselves, and those that pass an option on to the
-- IEEE 802.15.4 driver.
pub data Callback : Type 0 where
  get_src_len get_max_pkt_size : Callback
  driver_get : NetOpt → Callback

-- What a callback for reading gives: the value, in two bytes, or an error code, or what the driver
-- gives.
pub data Answer : Type 0 where
  value : ℕ → Answer
  overflow : Answer
  of_driver : NetOpt → ℕ → Answer

-- A read into `max_len` bytes.
unfoldable pub call_get : Callback → ℕ → Answer
call_get get_src_len max_len = if not (max_len == 2) then overflow else value 8
call_get get_max_pkt_size max_len = if not (max_len == 2) then overflow else value 104
call_get (driver_get o) max_len = of_driver o max_len

-- `getters` and `setters` hold the registrations, the newest first; a setter passes an option on to
-- the driver. The flags and the protocol number, which are constants of RIOT, are not modelled.
pub record Device : Type 0 where
  pub getters : List (NetOpt × Callback)
  pub setters : List (NetOpt × NetOpt)
  pub pan : ℕ
  pub short_addr : List ℕ
  pub long_addr : List ℕ
  pub seq : ℕ
  pub chan : ℕ

abbrev pub netdev_addr_prefix : List ℕ
netdev_addr_prefix = 2 ∷ 1 ∷ 2 ∷ 3 ∷ 4 ∷ 5 ∷ 6 ∷ 0 ∷ []

abbrev pub netdev_pan_id : ℕ
netdev_pan_id = 0x0708

abbrev pub set_get_cb : NetOpt → Callback → Device → Device
set_get_cb o cb d = record d { getters = (o, cb) ∷ d.getters }

abbrev pub set_set_cb : NetOpt → NetOpt → Device → Device
set_set_cb o target d = record d { setters = (o, target) ∷ d.setters }

-- A device after `netdev2_test_setup`.
abbrev pub fresh : Device
fresh = record {
  getters = [];
  setters = [];
  pan = 0;
  short_addr = [];
  long_addr = [];
  seq = 0;
  chan = 0;
}

-- A turn of the loop of `netdev_init`, with the address `addr`.
unfoldable pub init_device : List ℕ → Device
init_device addr =
    let d1 = set_get_cb src_len get_src_len fresh in
    let d2 = set_get_cb max_packet_size get_max_pkt_size d1 in
    let d3 = set_get_cb address (driver_get address) d2 in
    let d4 = set_get_cb address_long (driver_get address_long) d3 in
    let d5 = set_get_cb addr_len (driver_get addr_len) d4 in
    let d6 = set_get_cb src_len (driver_get addr_len) d5 in
    let d7 = set_set_cb src_len addr_len d6 in
    let d8 = set_get_cb nid (driver_get nid) d7 in
    let d9 = set_get_cb proto (driver_get proto) d8 in
    let d10 = set_get_cb device_type (driver_get device_type) d9 in
    let d11 = set_get_cb ipv6_iid (driver_get ipv6_iid) d10 in
    record d11 {
      pan = netdev_pan_id;
      short_addr = take 2 (drop 6 addr);
      long_addr = addr;
      seq = 0;
      chan = 26;
    }

-- The loop for `n` more devices, the first of them number `i`.
unfoldable pub init_from : ℕ → ℕ → List ℕ → List Device
unfolding init_device
init_from zero i addr = []
init_from (suc n) i addr = let addr' = set addr 7 i in init_device addr' ∷ init_from n (i + 1) addr'

-- `netdev_init` for NETDEV_NUMOF devices, fewer than 256.
unfoldable pub netdev_init : ℕ → List Device
unfolding init_from
netdev_init numof = init_from numof 0 netdev_addr_prefix
