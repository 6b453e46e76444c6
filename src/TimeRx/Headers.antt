-- ===== src/TimeRx/Headers.antt =====
-- The bytes of the headers before the data of a frame. The constants of RFC 4944 and RFC 6282 are
-- those of RIOT's net/sixlowpan.h, which is not part of the repository.
pub mod Checksum
pub mod Decode
use Prim.Native.Nat.{bit_and, bit_or}
use riot_playground.Common.{
  ℕ, ◌+◌, ◌-◌, ◌/◌, ◌%◌, List, [], ◌∷◌, ◌++◌, ◌==◌, if◌then◌else◌, u8, u16, length, write_at,
}
use riot_playground.TimeRx.{frag_1_len, frag_n_len, ipudp_len, mhr_len, nhc_ports}

pub record Constants : Type 0 where
  pub frag_1_disp : ℕ
  pub frag_n_disp : ℕ
  pub iphc1_disp : ℕ
  pub iphc1_tf : ℕ
  pub iphc1_nh : ℕ
  pub iphc2_sam : ℕ
  pub iphc2_dam : ℕ

-- `byteorder_htons`
abbrev pub htons : ℕ → List ℕ
htons n = u8 (n / 256) ∷ u8 n ∷ []

-- `b &= ~disp; b |= disp`, on a byte.
abbrev pub with_disp : ℕ → ℕ → ℕ
with_disp disp b = bit_or (bit_and b (255 - disp)) disp

unfoldable pub init_frag1 : Constants → ℕ → ℕ → List ℕ
init_frag1 c size tag = with_disp c.frag_1_disp (u8 (size / 256)) ∷ u8 size ∷ htons tag

unfoldable pub init_fragn : Constants → ℕ → ℕ → ℕ → List ℕ
init_fragn c size tag offset =
    with_disp c.frag_n_disp (u8 (size / 256)) ∷ u8 size ∷ htons tag ++ u8 (offset / 8) ∷ []

-- `f->tag = byteorder_htons(id)` in `exp_run`, for either fragment header.
unfoldable pub set_tag : ℕ → List ℕ → List ℕ
set_tag id header = write_at header 2 (htons id)

-- The bytes of the compressed headers; the two bytes after them, for the checksum, are not written
-- here.
unfoldable pub init_iphc : Constants → ℕ → ℕ → List ℕ
unfolding nhc_ports
init_iphc c src_port dst_port =
    u8 (bit_or (bit_or c.iphc1_disp (bit_or c.iphc1_tf c.iphc1_nh)) 0x02)
    ∷ u8 (bit_or (bit_or 0 c.iphc2_sam) c.iphc2_dam)
    ∷ nhc_ports src_port dst_port

-- `_set_chksum(&frag_buf[0][frag_buf_len[0] - IPHC_LEN], ...)`: `frame` is the front of the first
-- frame, `frag_buf_len[0]` bytes.
unfoldable pub set_chksum : ℕ → List ℕ → List ℕ → List ℕ
set_chksum iphc checksum frame = write_at frame (length frame - iphc + (iphc - 2)) checksum

-- The checksum field of `_init_udp`, for the sum of the packet and its pseudo-header that
-- `inet_csum` and `ipv6_hdr_inet_csum` give: `byteorder_htons(~chksum)`.
unfoldable pub udp_checksum : ℕ → ℕ
udp_checksum sum = let chksum = if u16 sum == 0 then 0xffff else u16 sum in 65535 - chksum

-- The UDP header that `_init_udp` writes. `inet_csum` and `pseudo_csum` are RIOT's `inet_csum` and
-- `ipv6_hdr_inet_csum`, the first over the header with no checksum and the payload.
unfoldable pub init_udp : (ℕ → List ℕ → ℕ) → (ℕ → ℕ → ℕ) → ℕ → ℕ → List ℕ → List ℕ
unfolding udp_checksum
init_udp inet_csum pseudo_csum src_port dst_port payload =
    let udp_len = u16 (length payload + 8) in
    let front = htons src_port ++ htons dst_port ++ htons udp_len in
    let sum = pseudo_csum (inet_csum 0 (front ++ 0 ∷ 0 ∷ payload)) udp_len in
    front ++ htons (udp_checksum sum)
