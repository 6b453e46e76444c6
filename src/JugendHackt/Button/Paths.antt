-- ===== src/JugendHackt/Button/Paths.antt =====
-- What a request leaves in the path of the target.
use riot_playground.Common.{
  length-take, ℕ, zero, suc, ◌+◌, ◌≤◌, ◌<◌, ◌≡◌, ◌≢◌, refl, ◌∙◌, ap, List, [], ◌∷◌, ◌++◌, arith,
  Option, drop, take, length, write_at, length-write_at, length-set, All,
}
use riot_playground.Common.Chars.{strncpy}
use riot_playground.Json.{Token, token_len}
use riot_playground.Endpoint.{Str2Ep}
use riot_playground.Luke.Coap.{Code, valid, bad_request}
use riot_playground.JugendHackt.Button.{
  Button, Turn, stop, reject, continue, copy_path, token_turn, token_loop, set_target_from_payload,
}

-- A text that fits is put before what the array holds behind it.
write_at-append :
    (xs bs : List ℕ) → length bs ≤ length xs → write_at xs 0 bs ≡ bs ++ drop (length bs) xs
write_at-append [] [] h = refl
write_at-append [] (b ∷ bs) h = absurd (omega arith)
write_at-append (x ∷ xs) [] h = refl
write_at-append (x ∷ xs) (b ∷ bs) h = ap (λ ys. b ∷ ys) (write_at-append xs bs (omega arith))

-- A text without a NUL is copied as it is.
strncpy_text :
    (s : List ℕ) (n : ℕ) → n ≤ length s → All (λ c. c ≢ 0) (take n s) → strncpy s n ≡ take n s
unfolding strncpy
strncpy_text s zero h a = refl
strncpy_text [] (suc n) h a = absurd (omega arith)
strncpy_text (c ∷ s) (suc n) h (ne, a) = ground (arith, ne, strncpy_text s n (omega arith) a)

-- A path of 1 to 16 bytes, without a NUL and inside the payload, overwrites the bytes of the array
-- of 16 from the first on, and leaves the others as they were: what is left of a longer path
-- before it stays behind it. No write passes the end of the array.
pub path-copy_path :
    (payload : List ℕ) (start len : ℕ) (b : Button)
    → length b.path ≡ 16
    → 0 < len
    → len ≤ 16
    → len ≤ length (drop start payload)
    → All (λ c. c ≢ 0) (take len (drop start payload))
    → let b' = copy_path payload start len b in
      (b'.path ≡ take len (drop start payload) ++ drop len b.path) × (b'.overrun ≡ b.overrun)
unfolding copy_path
path-copy_path payload start len b size some_len fits inside text =
    let s = drop start payload in
    let copied = strncpy_text s len inside text in
    let long = length-take len s inside in
    let joined = write_at-append b.path (take len s) (omega (arith, long)) in
    ground (
      arith,
      ap (λ bs. write_at b.path 0 bs) copied,
      ap (λ n. take len s ++ drop n b.path) long,
      joined,
    )

length-copy_path :
    (payload : List ℕ) (start len : ℕ) (b : Button)
    → length (copy_path payload start len b).path ≡ length b.path
unfolding copy_path
length-copy_path payload start len b = grind (arith, length-write_at, length-set)

abbrev pub KeepsTime : Button → Button → Type 0
KeepsTime b b' =
    (b'.last_sent ≡ b.last_sent) × (b'.posted ≡ b.posted) × (length b'.path ≡ length b.path)

turn_button : Turn → Button → Button
turn_button stop b = b
turn_button (reject b') b = b'
turn_button (continue b') b = b'

module _ (str2ep : Str2Ep) (gcoap_port : ℕ) where
  token_turn_keeps :
      (payload : List ℕ) (toks : ℕ → Token) (num i : ℕ) (b : Button)
      → KeepsTime b (turn_button (token_turn str2ep gcoap_port payload toks num i b) b)
  unfolding token_turn turn_button
  token_turn_keeps payload toks num i b =
      let tok = toks (i + 1) in ground (arith, length-copy_path payload tok.start (token_len tok) b)

  token_loop_keeps :
      (payload : List ℕ) (toks : ℕ → Token) (num fuel i : ℕ) (b : Button)
      → KeepsTime b (token_loop str2ep gcoap_port payload toks num fuel i b).1
  unfolding token_loop turn_button
  token_loop_keeps payload toks num zero i b = (refl, refl, refl)
  token_loop_keeps payload toks num (suc fuel) i b =
      by_turn (token_turn str2ep gcoap_port payload toks num i b)
        (token_turn_keeps payload toks num i b)
        (λ b'. token_loop_keeps payload toks num fuel (i + 2) b')
    where
      by_turn :
          (t : Turn)
          → KeepsTime b (turn_button t b)
          → ((b' : Button)
              → KeepsTime b' (token_loop str2ep gcoap_port payload toks num fuel (i + 2) b').1)
          → KeepsTime b
              (elim t as (λ u. Code × Button) [
                | stop ↦ (valid, b)
                | reject b' ↦ (bad_request, b')
                | continue b' ↦ token_loop str2ep gcoap_port payload toks num fuel (i + 2) b'
              ]).1
      by_turn stop k rest = (refl, refl, refl)
      by_turn (reject b') k rest = k
      by_turn (continue b') (k1, k2, k3) rest =
          let (r1, r2, r3) = rest b' in (r1 ∙ k1, r2 ∙ k2, r3 ∙ k3)

  -- Whatever its payload, a request to set the target sends no post and leaves the time of the last
  -- one, and the array for the path keeps its size.
  pub set_target_keeps :
      (parse : List ℕ → Option ℕ × (ℕ → Token)) (payload : List ℕ) (b : Button)
      → KeepsTime b (set_target_from_payload str2ep gcoap_port parse payload b).1
  unfolding set_target_from_payload
  set_target_keeps parse payload b = grind (arith, token_loop_keeps)
