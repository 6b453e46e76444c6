-- ===== src/Luke/Target.antt =====
-- lndw18_luke/common/common.c: the target that points are posted to, and the reboot.
-- jsmn, the network stack and the clock are parameters; printing is not modelled.
pub mod Parse
pub mod Accept
pub mod Post
mod Tests
use riot_playground.Common.{
  ℕ, zero, suc, ◌+◌, ◌-◌, ◌*◌, List, [], ◌∷◌, ◌++◌, Bool, true, false, not, ◌||◌, Option, none,
  some, ltb, ◌==◌, if◌then◌else◌, u32, length, get_or, replicate, set, take, drop, write_at, codes,
}
use riot_playground.Common.Chars.{until_nul, strncpy}
use riot_playground.Json.{Token, is_string, is_object, token_len, jsoneq, addr_key, path_key}
use riot_playground.Endpoint.{Endpoint, Str2Ep, make_sock_ep}
use riot_playground.Common.Decimal.{print_u}
use riot_playground.Luke.Payload.{points_key, print_payload}
use riot_playground.Luke.Coap.{
  Method, get, post, other, Code, valid, content, bad_request, Request, Response, json,
}

-- A CoAP POST that is given to gcoap: where to, by what path, with what payload.
pub record Sent : Type 0 where
  pub remote : Endpoint
  pub uri_path : List ℕ
  pub body : List ℕ

-- `overrun` records that a write has passed the end of `_target_path`.
pub record Target : Type 0 where
  pub remote : Endpoint
  pub path : List ℕ
  pub victory_last_sent : ℕ
  pub overrun : Bool
  pub sent : List Sent

abbrev pub target_path_len : ℕ
target_path_len = 16

abbrev pub us_per_sec : ℕ
us_per_sec = 1000000

-- Offset and length of the values that the loop over the tokens finds, and the payload, into which
-- it writes.
pub record Found : Type 0 where
  pub payload : List ℕ
  pub remote_tok : Option (ℕ × ℕ)
  pub path_tok : Option (ℕ × ℕ)

pub data Next : Type 0 where
  stop reject : Next
  continue : Found → Next

-- One turn of the loop over the tokens, which takes a key and the value after it.
unfoldable pub token_step : (ℕ → Token) → ℕ → ℕ → Found → Next
token_step toks num i f =
    let tok = toks (i + 1) in
    let place = some (tok.start, token_len tok) in
    if not (ltb i num)
    then stop
    else if jsoneq f.payload (toks i) addr_key
    then (if is_string tok
        then continue (record f { remote_tok = place; payload = set f.payload tok.end 0 })
        else reject)
    else if jsoneq f.payload (toks i) path_key
    then (if is_string tok then continue (record f { path_tok = place }) else reject)
    else reject

-- The loop, from token `i` on; `none` if it returns early. Each turn takes two tokens, so a fuel
-- of `num` is enough.
unfoldable pub scan_tokens : (ℕ → Token) → ℕ → ℕ → ℕ → Found → Option Found
scan_tokens toks num zero i f = some f
scan_tokens toks num (suc fuel) i f = elim (token_step toks num i f) [
  | stop ↦ some f
  | reject ↦ none
  | continue f' ↦ scan_tokens toks num fuel (i + 2) f'
]

unfoldable pub store_path : List ℕ → ℕ → ℕ → Target → Target
store_path payload start len t = record t {
  path = write_at (replicate target_path_len 0) 0 (strncpy (drop start payload) len);
  overrun = t.overrun || ltb target_path_len len;
}

module _ (str2ep : Str2Ep) (gcoap_port : ℕ) where
  -- What follows the loop, where both values were found.
  unfoldable pub apply_target : List ℕ → ℕ × ℕ → ℕ × ℕ → Target → Code × Target
  unfolding store_path
  apply_target payload (remote_start, remote_len) (path_start, path_len) t =
      let (made, ep) =
        make_sock_ep str2ep gcoap_port t.remote (until_nul (drop remote_start payload)) in
      if remote_len == 0
      then (
        valid,
        store_path payload path_start path_len
            (record t { remote = record t.remote { addr = replicate 16 0 } }),
      )
      else if made
      then (valid, store_path payload path_start path_len (record t { remote = ep }))
      else (bad_request, record t { remote = ep })

  abbrev apply_found : Option Found → Target → Code × Target
  apply_found found t = elim found [
    | none ↦ (bad_request, t)
    | some f ↦ elim f.remote_tok [
      | none ↦ (bad_request, t)
      | some r ↦ elim f.path_tok [ none ↦ (bad_request, t) | some p ↦ apply_target f.payload r p t ]
    ]
  ]

-- `parse` is `jsmn_parse` with room for five tokens: the number that it returns, `none` if that is
-- negative, and the array of tokens after it.
module _ (str2ep : Str2Ep) (gcoap_port : ℕ) (parse : List ℕ → Option ℕ × (ℕ → Token)) where
  unfoldable pub set_target_from_payload : List ℕ → Target → Code × Target
  unfolding apply_target
  set_target_from_payload payload t = elim (parse payload).0 [
    | none ↦ (bad_request, t)
    | some num ↦
        let toks = (parse payload).1 in
        let start : Found = record { payload = payload; remote_tok = none; path_tok = none } in
        if ltb num 1 || not (is_object (toks 0))
        then (bad_request, t)
        else apply_found str2ep gcoap_port (scan_tokens toks num num 1 start) t
  ]

  -- `ep_fmt` is `sock_udp_ep_fmt`: the text of the address, and the port.
  unfoldable pub luke_set_target : (Endpoint → List ℕ × ℕ) → Request → Target → Response × Target
  unfolding set_target_from_payload
  luke_set_target ep_fmt req t =
      let (addr_str, port) = ep_fmt t.remote in
      let text =
        codes "{\"addr\":\"["
        ++ (addr_str
            ++ (codes "]:"
                ++ (print_u port
                    ++ (codes "\",\"path\":\"" ++ (until_nul t.path ++ codes "\"}"))))) in
      let (code, t') = set_target_from_payload req.payload t in
      elim req.method [
        | get ↦ (some (content, text), t)
        | post ↦
            (if req.content_type == json
              then (some (code, []), t')
              else (some (bad_request, []), t))
        | other ↦ (none, t)
      ]

-- `unspecified` is `ipv6_addr_is_unspecified`, `now` the time that `xtimer_now_usec` gives before
-- the checks and `later` the one after them; `pdu_len` is the length that `gcoap_req_send2`
-- returns.
unfoldable pub post_points_to_target : (List ℕ → Bool) → ℕ → ℕ → ℕ → ℕ → Target → ℕ × Target
post_points_to_target unspecified now later pdu_len points t =
    let message : Sent = record {
      remote = t.remote;
      uri_path = until_nul t.path;
      body = print_payload points_key points;
    } in
    if unspecified t.remote.addr || get_or t.path 0 0 == 0
    then (0, t)
    else if ltb (u32 (t.victory_last_sent + 4294967296 - now)) us_per_sec
    then (0, t)
    else (pdu_len, record t { victory_last_sent = later; sent = message ∷ t.sent })

-- The delay of the reboot that a request causes, and the response.
unfoldable pub luke_reboot : Request → Response × Option ℕ
luke_reboot req = elim req.method [
  | post ↦ (some (valid, []), some (8 * us_per_sec))
  | _ ↦ (none, none)
]
