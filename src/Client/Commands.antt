-- ===== src/Client/Commands.antt =====
-- The commands `uri`, `server`, `proxy`, `query` and `dns` of lndw22_doc/client/main.c. gcoap, sock
-- and the parser of addresses are parameters; what the commands print is not modelled.
pub mod Resolve
use riot_playground.Common.{
  ℕ, zero, suc, ◌+◌, List, [], ◌∷◌, Bool, true, false, not, ◌&&◌, ◌||◌, leb, ltb, ◌==◌,
  if◌then◌else◌, length, codes, Option, none, some,
}
use riot_playground.Common.Int.{ℤ, pos, negsuc}
use riot_playground.Common.Chars.{str_eq, atoi, int_to_u16, char_at}
use riot_playground.Client.Mock.{arg}

pub data Family : Type 0 where
  af_unspec af_inet af_inet6 : Family

unfoldable pub parse_af : List ℕ → Family
parse_af family_name =
    if str_eq (codes "inet6") family_name
    then af_inet6
    else if str_eq (codes "inet") family_name
    then af_inet
    else af_unspec

-- The exit status for the length of an address: that of an IPv4 or of an IPv6 address is 0.
unfoldable pub print_addr : ℤ → ℕ
print_addr (pos addr_len) = if addr_len == 4 || addr_len == 16 then 0 else 1
print_addr (negsuc n) = 1

-- `resolve` is `gcoap_dns_query` or `sock_dns_query`: the length of the address, or a negative
-- error.
abbrev pub Resolver : Type 0
Resolver = List ℕ → Family → ℤ

abbrev resolved : ℤ → ℕ
resolved (pos addr_len) = print_addr (pos addr_len)
resolved (negsuc n) = n + 1

unfoldable pub query : Resolver → List (List ℕ) → ℕ
unfolding parse_af print_addr
query resolve argv =
    let argc = length argv in
    let hostname = arg argv 1 in
    if ltb argc 2
    then 1
    else if argc == 3
    then elim (parse_af (arg argv 2)) [
      | af_unspec ↦ 1
      | af_inet ↦ resolved (resolve hostname af_inet)
      | af_inet6 ↦ resolved (resolve hostname af_inet6)
    ]
    else resolved (resolve hostname af_inet6)

-- With no argument the usage is printed, and the query goes on all the same.
unfoldable pub dns : Resolver → List (List ℕ) → ℕ
unfolding parse_af print_addr
dns resolve argv =
    let hostname = arg argv 1 in
    if length argv == 3
    then elim (parse_af (arg argv 2)) [
      | af_unspec ↦ 1
      | af_inet ↦ print_addr (resolve hostname af_inet)
      | af_inet6 ↦ print_addr (resolve hostname af_inet6)
    ]
    else print_addr (resolve hostname af_inet6)

-- `set` is `gcoap_dns_server_uri_set` or `gcoap_dns_server_proxy_set`: the number of the error, or
-- the new setting, which is `none` if there is none.
abbrev set_status : Option ℕ × Option (List ℕ) → ℕ × Option (List ℕ)
set_status (none, uri) = (0, uri)
set_status (some errno, uri) = (errno, uri)

abbrev shown_status : Option (List ℕ) → ℕ
shown_status none = 1
shown_status (some uri) = 0

unfoldable pub set_uri :
    (List ℕ → Option (List ℕ) → Option ℕ × Option (List ℕ))
    → List (List ℕ)
    → Option (List ℕ)
    → ℕ × Option (List ℕ)
set_uri set argv uri =
    let argc = length argv in
    if ltb 1 argc && str_eq (arg argv 1) (codes "-d")
    then (0, none)
    else if argc == 1
    then (shown_status uri, uri)
    else set_status (set (arg argv 1) uri)

unfoldable pub proxy :
    (List ℕ → Option (List ℕ) → Option ℕ × Option (List ℕ))
    → List (List ℕ)
    → Option (List ℕ)
    → ℕ × Option (List ℕ)
proxy set argv uri =
    if ltb (length argv) 2
    then (shown_status uri, uri)
    else if char_at (arg argv 1) 0 == b'-'
    then (0, none)
    else set_status (set (arg argv 1) uri)

-- `sock_dns_server`: whether its family is set, its address and its port.
pub record Server : Type 0 where
  pub family_set : Bool
  pub addr : List ℕ
  pub port : ℕ

-- `pton` is `inet_pton`; `dns_port` is SOCK_DNS_PORT.
unfoldable pub dns_server : (List ℕ → Option (List ℕ)) → ℕ → List (List ℕ) → Server → ℕ × Server
unfolding atoi
dns_server pton dns_port argv s =
    let argc = length argv in
    let port = int_to_u16 (atoi (arg argv 2)) in
    if ltb argc 2 then (0, s) else elim (pton (arg argv 1)) [
      | none ↦ (1, s)
      | some addr ↦
          if argc == 2
          then (0, record s { addr = addr; port = dns_port; family_set = true })
          else if port == 0
          then (1, record s { addr = addr; port = 0 })
          else (0, record s { addr = addr; port = port; family_set = true })
    ]
