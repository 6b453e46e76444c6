-- ===== src/Endpoint.antt =====
-- UDP endpoints and `make_sock_ep` of lndw18_luke/common/common.h and jugend-hackt-2018-10.
-- The parser of addresses, `sock_udp_str2ep`, belongs to RIOT: it is a parameter, which says
-- whether the text is an address, and what it leaves in the endpoint.
use riot_playground.Common.{ℕ, List, Bool, true, false, ◌==◌, if◌then◌else◌}

pub record Endpoint : Type 0 where
  pub family : ℕ
  pub netif : ℕ
  pub addr : List ℕ
  pub port : ℕ

abbrev pub af_inet6 : ℕ
af_inet6 = 10

abbrev pub any_netif : ℕ
any_netif = 0

abbrev pub Str2Ep : Type 0
Str2Ep = Endpoint → List ℕ → Bool × Endpoint

-- Whether an endpoint was made, and what `ep` points to after it. `default_port` is GCOAP_PORT, or
-- CORD_SERVER_PORT.
unfoldable pub make_sock_ep : Str2Ep → ℕ → Endpoint → List ℕ → Bool × Endpoint
make_sock_ep str2ep default_port ep text =
    let (ok, parsed) = str2ep (record ep { port = 0 }) text in
    if ok
    then (
      true,
      record parsed {
        family = af_inet6;
        netif = any_netif;
        port = if parsed.port == 0 then default_port else parsed.port;
      },
    )
    else (false, parsed)
