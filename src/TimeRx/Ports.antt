-- ===== src/TimeRx/Ports.antt =====
-- The compressed ports are those of RFC 6282.
use riot_playground.Common.{
  ℕ, ◌+◌, ◌*◌, ◌/◌, ◌%◌, ◌^◌, ◌<◌, ◌≡◌, List, Option, none, some, ◌==◌, if◌then◌else◌, arith,
  length, get_or,
}
use riot_playground.TimeRx.{iphc_len, nhc_ports}

-- Source and destination port by RFC 6282, section 4.3.1: the last two bits of the first byte say
-- which bits of the ports are left out.
pub decode_ports : List ℕ → Option (ℕ × ℕ)
decode_ports nhc =
    let kind = get_or nhc 0 0 in
    let a = get_or nhc 1 0 in
    let b = get_or nhc 2 0 in
    let c = get_or nhc 3 0 in
    let d = get_or nhc 4 0 in
    if kind == 0xf0
    then some (a * 256 + b, c * 256 + d)
    else if kind == 0xf1
    then some (a * 256 + b, 0xf000 + c)
    else if kind == 0xf2
    then some (0xf000 + a, b * 256 + c)
    else if kind == 0xf3
    then some (0xf0b0 + a / 16, 0xf0b0 + a % 16)
    else none

-- A reader of RFC 6282 finds both ports, and the header with its checksum has the length that
-- IPHC_LEN says.
pub decode_ports-nhc_ports :
    (src_port dst_port : ℕ)
    → src_port < 2 ^ 16
    → dst_port < 2 ^ 16
    → (decode_ports (nhc_ports src_port dst_port) ≡ some (src_port, dst_port))
      × (2 + length (nhc_ports src_port dst_port) + 2 ≡ iphc_len src_port dst_port)
unfolding decode_ports nhc_ports iphc_len
decode_ports-nhc_ports src_port dst_port h h' = ground arith
