-- ===== src/TimeRx/Headers/Checksum.antt =====
-- The UDP header of a run, and its checksum.
use riot_playground.Common.{
  ℕ, ◌+◌, ◌*◌, ◌/◌, ◌^◌, ◌<◌, ◌≡◌, ◌≢◌, ◌↔◌, ◌⊎◌, List, ◌∷◌, ◌++◌, arith, length, get_or, u8, u16,
}
use riot_playground.TimeRx.Headers.{htons, udp_checksum, init_udp}

-- A big-endian number of two bytes.
abbrev pub word : List ℕ → ℕ → ℕ
word bs i = get_or bs i 0 * 256 + get_or bs (i + 1) 0

-- The sum that `_init_udp` computes for a payload.
abbrev pub udp_sum : (ℕ → List ℕ → ℕ) → (ℕ → ℕ → ℕ) → ℕ → ℕ → List ℕ → ℕ
udp_sum inet_csum pseudo_csum src_port dst_port payload =
    let udp_len = u16 (length payload + 8) in
    let front = htons src_port ++ htons dst_port ++ htons udp_len in
    u16 (pseudo_csum (inet_csum 0 (front ++ 0 ∷ 0 ∷ payload)) udp_len)

udp_checksum_lem :
    (sum : ℕ)
    → (u16 sum ≢ 0 → u16 sum + udp_checksum sum ≡ 65535)
      × (udp_checksum sum < 65536)
      × ((udp_checksum sum ≡ 0) ↔ ((u16 sum ≡ 0) ⊎ (u16 sum ≡ 65535)))
unfolding udp_checksum
udp_checksum_lem sum = (ground arith, ground arith, (ground arith, ground arith))

-- Whatever RIOT's sums are, the UDP header of a payload holds the ports, the length and the
-- complement of the sum, so that the two add up to 0xffff unless the sum is 0; but the checksum is
-- 0, which stands for no checksum, exactly if the sum is 0 or 0xffff.
pub init_udp_lem :
    (inet_csum : ℕ → List ℕ → ℕ) (pseudo_csum : ℕ → ℕ → ℕ) (src_port dst_port : ℕ)
    (payload : List ℕ)
    → src_port < 2 ^ 16
    → dst_port < 2 ^ 16
    → length payload + 8 < 2 ^ 16
    → let h = init_udp inet_csum pseudo_csum src_port dst_port payload in
      let sum = udp_sum inet_csum pseudo_csum src_port dst_port payload in
      (word h 0 ≡ src_port)
      × (word h 2 ≡ dst_port)
      × (word h 4 ≡ length payload + 8)
      × (sum ≢ 0 → sum + word h 6 ≡ 65535)
      × ((word h 6 ≡ 0) ↔ ((sum ≡ 0) ⊎ (sum ≡ 65535)))
unfolding init_udp
init_udp_lem inet_csum pseudo_csum src_port dst_port payload hs hd hl =
    let udp_len = u16 (length payload + 8) in
    let front = htons src_port ++ htons dst_port ++ htons udp_len in
    let sum = pseudo_csum (inet_csum 0 (front ++ 0 ∷ 0 ∷ payload)) udp_len in
    let (sums, small, none) = udp_checksum_lem sum in
    let whole : u8 (udp_checksum sum / 256) * 256 + u8 (udp_checksum sum) ≡ udp_checksum sum =
      omega arith in
    (omega arith, omega arith, omega arith, rw whole sums, rw whole none)
