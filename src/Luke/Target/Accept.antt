-- ===== src/Luke/Target/Accept.antt =====
-- A request that names an address and a path sets the target to them.
use riot_playground.Common.{
  ℕ, zero, suc, ◌+◌, ◌-◌, ◌≤◌, ◌<◌, ◌≡◌, refl, sym, ◌∙◌, ap, List, [], ◌∷◌, true, false, ◌==◌, ltb,
  arith, Bool-cases, inl, inr, Option, none, some, replicate, drop, take, set, length, write_at,
  get_or,
}
use riot_playground.Common.Chars.{until_nul, strncpy, str_eq, str_eq_sound}
use riot_playground.Json.{
  Token, is_string, is_object, token_len, jsoneq, addr_key, path_key, token_text,
}
use riot_playground.Endpoint.{Str2Ep, make_sock_ep}
use riot_playground.Luke.Coap.{valid}
use riot_playground.Luke.Target.{
  Target, Found, continue, token_step, scan_tokens, store_path, apply_target,
  set_target_from_payload,
}

drop-set : (xs : List ℕ) (i n v : ℕ) → i < n → drop n (set xs i v) ≡ drop n xs
drop-set xs i zero v h = absurd (omega arith)
drop-set [] i (suc n) v h = refl
drop-set (x ∷ xs) zero (suc n) v h = refl
drop-set (x ∷ xs) (suc i) (suc n) v h = drop-set xs i n v (omega arith)

until_nul-set_first :
    (xs : List ℕ) (n : ℕ) → n < length xs → until_nul (set xs n 0) ≡ until_nul (take n xs)
unfolding until_nul
until_nul-set_first [] n h = absurd (omega arith)
until_nul-set_first (x ∷ xs) zero h = refl
until_nul-set_first (x ∷ xs) (suc n) h = rw (until_nul-set_first xs n (omega arith))

-- A NUL behind a text ends it.
until_nul-set :
    (xs : List ℕ) (start e : ℕ)
    → start ≤ e
    → e < length xs
    → until_nul (drop start (set xs e 0)) ≡ until_nul (take (e - start) (drop start xs))
until_nul-set xs zero e le h =
    let whole : e ≡ e - 0 = omega arith in
    until_nul-set_first xs e h ∙ ap (λ n. until_nul (take n xs)) whole
until_nul-set [] (suc start) e le h = absurd (omega arith)
until_nul-set (x ∷ xs) (suc start) zero le h = absurd (omega arith)
until_nul-set (x ∷ xs) (suc start) (suc e) le h =
    let less : e - start ≡ suc e - suc start = omega arith in
    until_nul-set xs start e (omega arith) (omega arith)
    ∙ ap (λ n. until_nul (take n (drop start xs))) less

until_nul-replicate : (n : ℕ) → until_nul (replicate n 0) ≡ []
unfolding until_nul
until_nul-replicate zero = refl
until_nul-replicate (suc n) = refl

-- What `strncpy` leaves in an array of NULs that is longer is the text, as a string.
stored_text :
    (n : ℕ) (s : List ℕ) (len : ℕ)
    → len < n
    → until_nul (write_at (replicate n 0) 0 (strncpy s len)) ≡ until_nul (take len s)
unfolding until_nul strncpy
stored_text zero s len h = absurd (omega arith)
stored_text (suc n) s zero h = refl
stored_text (suc n) [] (suc len) h = refl
stored_text (suc n) (c ∷ s) (suc len) h = grind (arith, stored_text n s len)

-- The tokens of an object with the keys "addr" and "path", in this order, each with a text. The
-- address is not empty, the path is shorter than the array for it, and each token stands behind
-- the one before.
pub record Described (payload : List ℕ) (toks : ℕ → Token) : Type 0 where
  pub whole : is_object (toks 0) ≡ true
  pub addr_named : jsoneq payload (toks 1) addr_key ≡ true
  pub addr_text : is_string (toks 2) ≡ true
  pub addr_given : (toks 2).start < (toks 2).end
  pub path_named : jsoneq payload (toks 3) path_key ≡ true
  pub path_text : is_string (toks 4) ≡ true
  pub before_name : (toks 2).end < (toks 3).start
  pub before_path : (toks 2).end < (toks 4).start
  pub inside : (toks 2).end < length payload
  pub path_fits : token_len (toks 4) < 16

jsoneq-set :
    (payload key : List ℕ) (tok : Token) (i : ℕ)
    → i < tok.start
    → jsoneq (set payload i 0) tok key ≡ jsoneq payload tok key
unfolding jsoneq
jsoneq-set payload key tok i h = rw (drop-set payload i tok.start 0 h) refl

path_not_addr :
    (payload : List ℕ) (tok : Token)
    → jsoneq payload tok path_key ≡ true
    → jsoneq payload tok addr_key ≡ false
unfolding jsoneq str_eq
path_not_addr payload tok h = elim (Bool-cases (jsoneq payload tok addr_key)) [
  | inl e ↦
      let path_is = str_eq_sound (token_text payload tok) path_key (ground arith) in
      let addr_is = str_eq_sound (token_text payload tok) addr_key (ground arith) in
      let first : 112 ≡ 97 = ap (λ s. get_or s 0 0) (sym path_is ∙ addr_is) in
      absurd (omega (arith, first))
  | inr e ↦ e
]

scan_continue :
    (toks : ℕ → Token) (num fuel i : ℕ) (f f' : Found)
    → token_step toks num i f ≡ continue f'
    → scan_tokens toks num (suc fuel) i f ≡ scan_tokens toks num fuel (i + 2) f'
unfolding scan_tokens
scan_continue toks num fuel i f f' e = rw (scan_tokens, e) refl

scan_stop :
    (toks : ℕ → Token) (num fuel : ℕ) (f : Found) → scan_tokens toks num (suc fuel) num f ≡ some f
unfolding scan_tokens token_step
scan_stop toks num fuel f = ground arith

abbrev none_found : List ℕ → Found
none_found payload = record { payload = payload; remote_tok = none; path_tok = none }

-- The first key and its value, and the second.
abbrev addr_found : (ℕ → Token) → List ℕ → Found
addr_found toks payload = record (none_found payload) {
  payload = set payload (toks 2).end 0;
  remote_tok = some ((toks 2).start, token_len (toks 2));
}

abbrev both_found : (ℕ → Token) → List ℕ → Found
both_found toks payload = record (addr_found toks payload) {
  path_tok = some ((toks 4).start, token_len (toks 4));
}

addr_turn :
    (payload : List ℕ) (toks : ℕ → Token)
    → Described payload toks
    → token_step toks 5 1 (none_found payload) ≡ continue (addr_found toks payload)
unfolding token_step
addr_turn payload toks d = ground (arith, d.addr_named, d.addr_text)

path_turn :
    (payload : List ℕ) (toks : ℕ → Token)
    → Described payload toks
    → token_step toks 5 3 (addr_found toks payload) ≡ continue (both_found toks payload)
unfolding token_step
path_turn payload toks d =
    let named = jsoneq-set payload path_key (toks 3) (toks 2).end d.before_name ∙ d.path_named in
    let other =
      jsoneq-set payload addr_key (toks 3) (toks 2).end d.before_name
      ∙ path_not_addr payload (toks 3) d.path_named in
    ground (arith, named, other, d.path_text)

scan-Described :
    (payload : List ℕ) (toks : ℕ → Token)
    → Described payload toks
    → scan_tokens toks 5 5 1 (none_found payload) ≡ some (both_found toks payload)
scan-Described payload toks d =
    scan_continue toks 5 4 1 (none_found payload) (addr_found toks payload)
      (addr_turn payload toks d)
    ∙ scan_continue toks 5 3 3 (addr_found toks payload) (both_found toks payload)
        (path_turn payload toks d)
    ∙ scan_stop toks 5 2 (both_found toks payload)

module _ (str2ep : Str2Ep) (gcoap_port : ℕ) (parse : List ℕ → Option ℕ × (ℕ → Token)) where
  apply-Described :
      (payload : List ℕ) (t : Target)
      → (parse payload).0 ≡ some 5
      → Described payload (parse payload).1
      → let toks = (parse payload).1 in
        set_target_from_payload str2ep gcoap_port parse payload t
        ≡ apply_target str2ep gcoap_port
            (set payload (toks 2).end 0)
            ((toks 2).start, token_len (toks 2))
            ((toks 4).start, token_len (toks 4))
            t
  unfolding set_target_from_payload
  apply-Described payload t five d =
      rw (set_target_from_payload, five, d.whole, scan-Described payload (parse payload).1 d) refl

  -- A payload of five tokens, those of an object with the keys "addr" and "path" in this order and
  -- a text for each, one behind the other and inside the payload, is accepted if the address is not
  -- empty and makes an endpoint and the path is shorter than the 16 bytes of the array for it: that
  -- endpoint is then the target, the path is stored as a string, and no write passes the end of the
  -- array.
  pub set_target-Described :
      (payload : List ℕ) (t : Target)
      → (parse payload).0 ≡ some 5
      → Described payload (parse payload).1
      → (make_sock_ep str2ep gcoap_port t.remote
          (until_nul (token_text payload ((parse payload).1 2)))).0
        ≡ true
      → let toks = (parse payload).1 in
        let addr = until_nul (token_text payload (toks 2)) in
        let (code, t') = set_target_from_payload str2ep gcoap_port parse payload t in
        (code ≡ valid)
        × (t'.remote ≡ (make_sock_ep str2ep gcoap_port t.remote addr).1)
        × (until_nul t'.path ≡ until_nul (token_text payload (toks 4)))
        × (t'.overrun ≡ t.overrun)
  unfolding apply_target store_path
  set_target-Described payload t five d made =
      let toks = (parse payload).1 in
      let addr_text =
        until_nul-set payload (toks 2).start (toks 2).end (omega (arith, d)) d.inside in
      let path_text =
        stored_text 16 (drop (toks 4).start payload) (token_len (toks 4)) d.path_fits in
      let same_path = drop-set payload (toks 2).end (toks 4).start 0 d.before_path in
      let given : (token_len (toks 2) == 0) ≡ false = ground (arith, d.addr_given) in
      let kept : ltb 16 (token_len (toks 4)) ≡ false = ground (arith, d.path_fits) in
      rw (apply-Described payload t five d, apply_target, addr_text, same_path, given, made, kept)
        (refl, refl, path_text, ground arith)
