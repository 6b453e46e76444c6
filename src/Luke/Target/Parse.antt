-- ===== src/Luke/Target/Parse.antt =====
-- What a request to set the target changes.
use riot_playground.Common.{
  ℕ, zero, suc, ◌+◌, ◌*◌, ◌≤◌, ◌<◌, ◌≡◌, ◌≢◌, inl, inr, refl, List, ltb, arith, Bool-cases, Option,
  none, some,
}
use riot_playground.Json.{Token}
use riot_playground.Endpoint.{Str2Ep}
use riot_playground.Luke.Coap.{bad_request}
use riot_playground.Luke.Target.{
  Target, Found, Next, stop, reject, continue, token_step, scan_tokens, apply_target,
  set_target_from_payload,
}

-- Two arrays of tokens that agree below 5.
abbrev SameFive : (ℕ → Token) → (ℕ → Token) → Type 0
SameFive toks toks' = (k : ℕ) → k < 5 → toks k ≡ toks' k

step_same :
    (toks toks' : ℕ → Token) (num i : ℕ) (f : Found)
    → SameFive toks toks'
    → num ≤ 5
    → i ≢ 4
    → token_step toks num i f ≡ token_step toks' num i f
unfolding token_step
step_same toks toks' num i f same h ne = elim (Bool-cases (ltb i num)) [
  | inl lt ↦ rw (same i (ground arith), same (i + 1) (ground arith)) refl
  | inr ge ↦ rw ge refl
]

scan_same :
    (toks toks' : ℕ → Token) (num fuel j : ℕ) (f : Found)
    → SameFive toks toks'
    → num ≤ 5
    → scan_tokens toks num fuel (1 + 2 * j) f ≡ scan_tokens toks' num fuel (1 + 2 * j) f
unfolding scan_tokens
scan_same toks toks' num zero j f same h = refl
scan_same toks toks' num (suc fuel) j f same h =
    rw (scan_tokens, step_same toks toks' num (1 + 2 * j) f same h (λ e. omega arith))
      (by_step (token_step toks' num (1 + 2 * j) f)
        (λ f'. rw next_turn (scan_same toks toks' num fuel (suc j) f' same h)))
  where
    next_turn : (1 + 2 * j) + 2 ≡ 1 + 2 * suc j
    next_turn = omega arith

    by_step :
        (n : Next)
        → ((f' : Found)
            → scan_tokens toks num fuel ((1 + 2 * j) + 2) f'
              ≡ scan_tokens toks' num fuel ((1 + 2 * j) + 2) f')
        → elim n [
          | stop ↦ some f
          | reject ↦ none
          | continue f' ↦ scan_tokens toks num fuel ((1 + 2 * j) + 2) f'
        ]
          ≡ elim n [
            | stop ↦ some f
            | reject ↦ none
            | continue f' ↦ scan_tokens toks' num fuel ((1 + 2 * j) + 2) f'
          ]
    by_step stop r = refl
    by_step reject r = refl
    by_step (continue f') r = r f'

-- With at most five tokens, what the loop does depends on the five entries of the array only: no
-- key stands in the last place, with its value past the end.
pub scan_tokens_in_bounds :
    (toks toks' : ℕ → Token) (num : ℕ) (f : Found)
    → num ≤ 5
    → ((k : ℕ) → k < 5 → toks k ≡ toks' k)
    → scan_tokens toks num num 1 f ≡ scan_tokens toks' num num 1 f
scan_tokens_in_bounds toks toks' num f h same = scan_same toks toks' num num 0 f same h

module _ (str2ep : Str2Ep) (gcoap_port : ℕ) (parse : List ℕ → Option ℕ × (ℕ → Token)) where
  apply_target_refused :
      (payload : List ℕ) (r p : ℕ × ℕ) (t : Target)
      → (apply_target str2ep gcoap_port payload r p t).0 ≡ bad_request
      → let t' = (apply_target str2ep gcoap_port payload r p t).1 in
        (t'.path ≡ t.path)
        × (t'.overrun ≡ t.overrun)
        × (t'.victory_last_sent ≡ t.victory_last_sent)
        × (t'.sent ≡ t.sent)
  unfolding apply_target
  apply_target_refused payload r p t e = ground arith

  -- A payload that is refused leaves the path of the target as it was, with no write past its end,
  -- sends no post, and leaves the time of the last one.
  pub set_target_refused :
      (payload : List ℕ) (t : Target)
      → (set_target_from_payload str2ep gcoap_port parse payload t).0 ≡ bad_request
      → let t' = (set_target_from_payload str2ep gcoap_port parse payload t).1 in
        (t'.path ≡ t.path)
        × (t'.overrun ≡ t.overrun)
        × (t'.victory_last_sent ≡ t.victory_last_sent)
        × (t'.sent ≡ t.sent)
  unfolding set_target_from_payload
  set_target_refused payload t e = grind (arith, apply_target_refused)
