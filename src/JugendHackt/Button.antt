-- ===== src/JugendHackt/Button.antt =====
-- jugend-hackt-2018-10/button/main.c: the button, the target that a request sets, and the posts.
-- jsmn, the network stack and the clock are parameters; printing is not modelled.
pub mod Paths
pub mod Posts
mod Tests
use riot_playground.Common.{
  ℕ, zero, suc, ◌+◌, ◌-◌, List, [], ◌∷◌, Bool, true, false, not, ◌||◌, Option, none, some, ltb,
  ◌==◌, if◌then◌else◌, u32, get_or, replicate, set, drop, write_at,
}
use riot_playground.Common.Chars.{until_nul, strncpy}
use riot_playground.Json.{Token, is_string, is_object, token_len, jsoneq, addr_key, path_key}
use riot_playground.Endpoint.{Endpoint, Str2Ep, make_sock_ep}
use riot_playground.Luke.Coap.{Method, post, Code, valid, bad_request, Request, Response, json}

-- A POST without payload: where to, and by what path.
pub record Posted : Type 0 where
  pub remote : Endpoint
  pub uri_path : List ℕ

-- `overrun` records that a write has passed the end of `_button_target_path`, `messages` counts
-- those that the interrupt has sent to the main thread.
pub record Button : Type 0 where
  pub enabled : Bool
  pub debounce : Option ℕ
  pub messages : ℕ
  pub remote : Endpoint
  pub path : List ℕ
  pub overrun : Bool
  pub last_sent : ℕ
  pub posted : List Posted

abbrev pub target_path_len : ℕ
target_path_len = 16

abbrev pub us_per_sec : ℕ
us_per_sec = 1000000

abbrev pub debounce_interval : ℕ
debounce_interval = 500000

unfoldable pub enable_button : Button → Button
enable_button b = record b { enabled = true; debounce = none }

unfoldable pub button_press : Button → Button
button_press b = record b {
  enabled = false;
  debounce = some debounce_interval;
  messages = b.messages + 1;
}

-- The value of "path", at `start` in the payload.
unfoldable pub copy_path : List ℕ → ℕ → ℕ → Button → Button
copy_path payload start len b = if len == 0 then record b { path = set b.path 0 0 } else record b {
  path = write_at b.path 0 (strncpy (drop start payload) len);
  overrun = b.overrun || ltb target_path_len len;
}

pub data Turn : Type 0 where
  stop : Turn
  reject continue : Button → Turn

module _ (str2ep : Str2Ep) (gcoap_port : ℕ) where
  -- One turn of the loop over the tokens, which takes a key and the value after it.
  unfoldable pub token_turn : List ℕ → (ℕ → Token) → ℕ → ℕ → Button → Turn
  unfolding copy_path
  token_turn payload toks num i b =
      let tok = toks (i + 1) in
      let addr = until_nul (drop tok.start payload) in
      if not (ltb i num)
      then stop
      else if jsoneq payload (toks i) addr_key
      then (if is_string tok
          then continue (record b { remote = (make_sock_ep str2ep gcoap_port b.remote addr).1 })
          else reject b)
      else if jsoneq payload (toks i) path_key
      then (if is_string tok
          then continue (copy_path payload tok.start (token_len tok) b)
          else reject b)
      else reject b

  -- The loop from token `i` on. Each turn takes two tokens, so a fuel of `num` is enough.
  unfoldable pub token_loop : List ℕ → (ℕ → Token) → ℕ → ℕ → ℕ → Button → Code × Button
  token_loop payload toks num zero i b = (valid, b)
  token_loop payload toks num (suc fuel) i b = elim (token_turn payload toks num i b) [
    | stop ↦ (valid, b)
    | reject b' ↦ (bad_request, b')
    | continue b' ↦ token_loop payload toks num fuel (i + 2) b'
  ]

  module _ (parse : List ℕ → Option ℕ × (ℕ → Token)) where
    unfoldable pub set_target_from_payload : List ℕ → Button → Code × Button
    unfolding token_loop
    set_target_from_payload payload b = elim (parse payload).0 [
      | none ↦ (bad_request, b)
      | some num ↦
          let toks = (parse payload).1 in
          if ltb num 1 || not (is_object (toks 0))
          then (bad_request, b)
          else token_loop payload toks num num 1 b
    ]

    unfoldable pub set_target : Request → Button → Response × Button
    unfolding set_target_from_payload
    set_target req b =
        let (code, b') = set_target_from_payload req.payload b in
        elim req.method [
          | post ↦
              (if req.content_type == json
                then (some (code, []), b')
                else (some (bad_request, []), b))
          | _ ↦ (none, b)
        ]

-- `now` and `later` are the times that `xtimer_now_usec` gives at the test and before the post.
unfoldable pub post_to_target : (List ℕ → Bool) → ℕ → ℕ → Button → Button
post_to_target unspecified now later b =
    let message : Posted = record { remote = b.remote; uri_path = until_nul b.path } in
    if ltb (u32 (now + 4294967296 - us_per_sec)) b.last_sent
    then b
    else if unspecified b.remote.addr || get_or b.path 0 0 == 0
    then b
    else record b { last_sent = later; posted = message ∷ b.posted }

-- A turn of `_coap_client`, which posts for a message; without one it waits.
unfoldable pub coap_client : (List ℕ → Bool) → ℕ → ℕ → Button → Button
unfolding post_to_target
coap_client unspecified now later b =
    if b.messages == 0
    then b
    else post_to_target unspecified now later (record b { messages = b.messages - 1 })
