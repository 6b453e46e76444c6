-- ===== src/Luke/Target/Tests.antt =====
-- The theorems on the target, with a parser that knows one payload and an address without a port.
use riot_playground.Common.{
  ℕ, zero, suc, ◌≡◌, ◌<◌, refl, List, [], ◌∷◌, Bool, true, false, Option, none, some, arith, codes,
  replicate,
}
use riot_playground.Common.Chars.{until_nul, str_eq}
use riot_playground.Json.{Token, undefined, object, string, token_text, jsoneq}
use riot_playground.Endpoint.{Str2Ep, make_sock_ep}
use riot_playground.Luke.Payload.{points_key, print_payload}
use riot_playground.Luke.Coap.{valid, bad_request}
use riot_playground.Luke.Target.{
  Target, Found, scan_tokens, set_target_from_payload, post_points_to_target,
}
use riot_playground.Luke.Target.Parse.{scan_tokens_in_bounds, set_target_refused}
use riot_playground.Luke.Target.Accept.{Described, set_target-Described}
use riot_playground.Luke.Target.Post.{Defined, post_after}

abbrev payload : List ℕ
payload = codes "{\"addr\":\"[a]\",\"path\":\"/p\"}"

abbrev toks : ℕ → Token
toks zero = record { kind = object; start = 0; end = 26 }
toks (suc zero) = record { kind = string; start = 2; end = 6 }
toks (suc (suc zero)) = record { kind = string; start = 9; end = 12 }
toks (suc (suc (suc zero))) = record { kind = string; start = 15; end = 19 }
toks (suc (suc (suc (suc zero)))) = record { kind = string; start = 22; end = 24 }
toks (suc (suc (suc (suc (suc k))))) = record { kind = undefined; start = 0; end = 0 }

abbrev parse : List ℕ → Option ℕ × (ℕ → Token)
parse s = (some 5, toks)

-- Fails for the empty text only.
abbrev str2ep : Str2Ep
str2ep ep [] = (false, ep)
str2ep ep (c ∷ s) = (true, record ep { addr = c ∷ s })

abbrev unspecified : List ℕ → Bool
unspecified [] = true
unspecified (c ∷ s) = false

abbrev fresh : Target
fresh = record {
  remote = record { family = 10; netif = 0; addr = []; port = 5683 };
  path = replicate 16 0;
  victory_last_sent = 0;
  overrun = false;
  sent = [];
}

abbrev defined : Target
defined = record fresh {
  remote = record { family = 10; netif = 0; addr = 1 ∷ []; port = 5683 };
  path = b'/' ∷ b'p' ∷ replicate 14 0;
}

payload-Described : Described payload toks
unfolding jsoneq str_eq
payload-Described = record {
  whole = refl;
  addr_named = refl;
  addr_text = refl;
  addr_given = omega arith;
  path_named = refl;
  path_text = refl;
  before_name = omega arith;
  before_path = omega arith;
  inside = omega arith;
  path_fits = omega arith;
}

text_made :
    (make_sock_ep str2ep 5683 fresh.remote (until_nul (token_text payload (toks 2)))).0 ≡ true
unfolding make_sock_ep until_nul
text_made = refl

set_target-Described_example :
    let addr = until_nul (token_text payload (toks 2)) in
    let (code, t') = set_target_from_payload str2ep 5683 parse payload fresh in
    (code ≡ valid)
    × (t'.remote ≡ (make_sock_ep str2ep 5683 fresh.remote addr).1)
    × (until_nul t'.path ≡ until_nul (token_text payload (toks 4)))
    × (t'.overrun ≡ false)
set_target-Described_example =
    set_target-Described str2ep 5683 parse payload fresh refl payload-Described text_made

abbrev no_json : List ℕ → Option ℕ × (ℕ → Token)
no_json s = (none, toks)

no_json_refused : (set_target_from_payload str2ep 5683 no_json payload defined).0 ≡ bad_request
unfolding set_target_from_payload
no_json_refused = refl

set_target_refused_example :
    let t' = (set_target_from_payload str2ep 5683 no_json payload defined).1 in
    (t'.path ≡ defined.path) × (t'.overrun ≡ false) × (t'.victory_last_sent ≡ 0) × (t'.sent ≡ [])
set_target_refused_example = set_target_refused str2ep 5683 no_json payload defined no_json_refused

abbrev others : ℕ → Token
others zero = toks 0
others (suc zero) = toks 1
others (suc (suc zero)) = toks 2
others (suc (suc (suc zero))) = toks 3
others (suc (suc (suc (suc zero)))) = toks 4
others (suc (suc (suc (suc (suc k))))) = toks 1

abbrev start : Found
start = record { payload = payload; remote_tok = none; path_tok = none }

same_five : (k : ℕ) → k < 5 → toks k ≡ others k
same_five zero h = refl
same_five (suc zero) h = refl
same_five (suc (suc zero)) h = refl
same_five (suc (suc (suc zero))) h = refl
same_five (suc (suc (suc (suc zero)))) h = refl
same_five (suc (suc (suc (suc (suc k))))) h = absurd (omega arith)

scan_tokens_in_bounds_example : scan_tokens toks 5 5 1 start ≡ scan_tokens others 5 5 1 start
scan_tokens_in_bounds_example = scan_tokens_in_bounds toks others 5 start (omega arith) same_five

defined-Defined : Defined unspecified defined
defined-Defined = record { has_addr = refl; has_path = λ e. absurd (omega arith) }

-- One microsecond after the last post, the next goes out.
post_after_run :
    (post_points_to_target unspecified 1 9 60 3 defined).1.sent
    ≡ record {
      remote = defined.remote;
      uri_path = until_nul defined.path;
      body = print_payload points_key 3;
    }
      ∷ []
post_after_run = post_after unspecified 1 9 60 3 defined defined-Defined (omega arith) (omega arith)
