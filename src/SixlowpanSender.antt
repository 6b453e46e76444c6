-- ===== src/SixlowpanSender.antt =====
-- sixlowpan_sender/main.c: the commands `send` and `comp`. RIOT's network stack is a parameter: what
-- is modelled is what it is given. Printing is not modelled.
pub mod Sending
mod Tests
use riot_playground.Common.{
  ℕ, zero, suc, ◌+◌, ◌/◌, ◌%◌, List, [], ◌∷◌, ◌++◌, Bool, true, false, ltb, leb, ◌==◌,
  if◌then◌else◌, u8, u16, length, get_or, replicate, Option, none, some,
}
use riot_playground.Common.Int.{ℤ, pos, negsuc}
use riot_playground.Common.Chars.{atoi, char_at, codes, str_eq}

-- The fields of the IPv6 header that `send` sets; the next header is IPV6_PROTO_NUM_NONE.
pub record Header : Type 0 where
  pub traffic_class : ℕ
  pub flow_label : ℕ
  pub payload_len : ℕ
  pub hop_limit : ℕ
  pub srcaddr : List ℕ
  pub destaddr : List ℕ

-- What `netapi_send_data2` is given.
pub record Packet : Type 0 where
  pub header : Header
  pub dest : ℕ
  pub bytes : List ℕ

-- `src` is the short address of the interface, `hc_status` what `sixlowpan_hc_set_status` was called
-- with last, and `sent` holds the packets, the newest first.
pub record State : Type 0 where
  pub data_value : ℕ
  pub src : ℕ
  pub hc_status : Option Bool
  pub sent : List Packet

-- A number in network byte order, of 2, 4 and 8 bytes.
abbrev pub htons : ℕ → List ℕ
htons n = u8 (n / 256) ∷ u8 n ∷ []

abbrev pub htonl : ℕ → List ℕ
htonl n = htons (u16 (n / 65536)) ++ htons (u16 n)

abbrev pub htonll : ℕ → List ℕ
htonll n = htonl (n / 4294967296) ++ htonl n

-- The address that `send` puts together for a short address.
unfoldable pub link_local : ℕ → List ℕ
link_local short = htonll 0xfe80000000000000 ++ htonl 0x000000ff ++ htons 0xfe00 ++ htons short

-- `n`, unless it is out of range.
abbrev pub checked : ℤ → Option ℕ
checked (pos n) = if leb 65536 n then none else some n
checked (negsuc n) = none

abbrev pub arg : List (List ℕ) → ℕ → List ℕ
arg argv i = get_or argv i []

-- The packet of `send` for `n` bytes.
unfoldable pub packet : ℕ → ℕ → ℕ → Packet
unfolding link_local
packet data_value src n = record {
  header = record {
    traffic_class = 0;
    flow_label = 0;
    payload_len = u16 n;
    hop_limit = 64;
    srcaddr = link_local src;
    destaddr = link_local 1;
  };
  dest = 1;
  bytes = replicate n data_value;
}

unfoldable pub send : List (List ℕ) → State → State
unfolding packet atoi
send argv s = if ltb (length argv) 2 then s else elim (checked (atoi (arg argv 1))) [
  | none ↦ s
  | some n ↦ record s {
    data_value = u8 (s.data_value + 1);
    sent = packet s.data_value s.src n ∷ s.sent;
  }
]

unfoldable pub comp : List (List ℕ) → State → State
comp argv s =
    if ltb (length argv) 2
    then s
    else record s { hc_status = some (if char_at (arg argv 1) 0 == b'0' then false else true) }

-- What `main` starts the shell with, for a random number and the address of the interface.
unfoldable pub boot : ℕ → ℕ → State
boot random address = record {
  data_value = random % 256;
  src = u16 address;
  hc_status = none;
  sent = [];
}

-- A line at the shell: the command in the table with its first word as the name.
unfoldable pub run_line : List (List ℕ) → State → State
unfolding send comp
run_line argv s =
    if str_eq (arg argv 0) (codes "send")
    then send argv s
    else if str_eq (arg argv 0) (codes "comp")
    then comp argv s
    else s
