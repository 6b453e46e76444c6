-- ===== src/JugendHackt/Button/Tests.antt =====
-- The theorems on the button of jugend-hackt-2018-10 at concrete inputs.
use riot_playground.Common.{
  ℕ, ◌≡◌, refl, List, [], ◌∷◌, ◌++◌, true, false, Option, none, some, arith, codes, replicate, drop,
}
use riot_playground.Common.Chars.{until_nul}
use riot_playground.Json.{Token, undefined}
use riot_playground.Endpoint.{Str2Ep}
use riot_playground.JugendHackt.Button.{Button, copy_path, post_to_target}
use riot_playground.JugendHackt.Button.Posts.{post_to_target_lem}
use riot_playground.JugendHackt.Button.Paths.{path-copy_path}

abbrev old : Button
old = record {
  enabled = true;
  debounce = none;
  messages = 0;
  remote = record { family = 10; netif = 0; addr = 1 ∷ []; port = 5683 };
  path = codes "/dino" ++ replicate 11 0;
  overrun = false;
  last_sent = 4000000;
  posted = [];
}

abbrev payload : List ℕ
payload = codes "\"/a\""

-- The new path "/a" and the rest of the old one: "/aino".
path-copy_path_run :
    let b' = copy_path payload 1 2 old in
    (b'.path ≡ codes "/a" ++ drop 2 old.path) × (b'.overrun ≡ false)
path-copy_path_run =
    path-copy_path payload 1 2 old refl (omega arith) (omega arith) (omega arith)
      ((λ e. absurd (omega arith)), ((λ e. absurd (omega arith)), tt))

abbrev str2ep : Str2Ep
str2ep ep s = (true, record ep { addr = s })

abbrev parse : List ℕ → Option ℕ × (ℕ → Token)
parse s = (some 1, λ k. record { kind = undefined; start = 0; end = 0 })

post_to_target_lem_run :
    (post_to_target (λ a. false) 5000000 5000001 old).posted
    ≡ record { remote = old.remote; uri_path = until_nul old.path } ∷ []
post_to_target_lem_run =
    post_to_target_lem (λ a. false) 5000000 5000001 old (omega arith) (omega arith)
