-- ===== src/Luke/Target/Post.antt =====
-- When points are posted to the target.
use riot_playground.Common.{
  ℕ, ◌+◌, ◌^◌, ◌<◌, ◌≡◌, ◌≢◌, ◌⊎◌, inl, inr, List, ◌∷◌, Bool, true, false, ◌&&◌, ltb, if◌then◌else◌,
  u32, arith, get_or,
}
use riot_playground.Common.Chars.{until_nul}
use riot_playground.Luke.Payload.{points_key, print_payload}
use riot_playground.Luke.Target.{Target, post_points_to_target}

-- A target is defined: it has an address, and its path is not empty.
pub record Defined (unspecified : List ℕ → Bool) (t : Target) : Type 0 where
  pub has_addr : unspecified t.remote.addr ≡ false
  pub has_path : get_or t.path 0 0 ≢ 0

-- Without a target nothing is posted, and nothing changes.
pub post_undefined :
    (unspecified : List ℕ → Bool) (now later pdu_len points : ℕ) (t : Target)
    → (unspecified t.remote.addr ≡ true) ⊎ (get_or t.path 0 0 ≡ 0)
    → post_points_to_target unspecified now later pdu_len points t ≡ (0, t)
unfolding post_points_to_target
post_undefined unspecified now later pdu_len points t (inl e) = ground arith
post_undefined unspecified now later pdu_len points t (inr e) = ground arith

-- With a target, a post `d` microseconds after the last one (modulo 2 ^ 32) goes out, to the
-- target's path and with the points as its payload, if `d` is above 0 and at most 2 ^ 32 - 10 ^ 6,
-- and is refused otherwise.
pub post_after :
    (unspecified : List ℕ → Bool) (d later pdu_len points : ℕ) (t : Target)
    → Defined unspecified t
    → t.victory_last_sent < 2 ^ 32
    → d < 2 ^ 32
    → let now = u32 (t.victory_last_sent + d) in
      (post_points_to_target unspecified now later pdu_len points t).1.sent ≡ (
        if (ltb 0 d && ltb d 4293967297)
        then record {
          remote = t.remote;
          uri_path = until_nul t.path;
          body = print_payload points_key points;
        }
          ∷ t.sent
        else t.sent)
unfolding post_points_to_target
post_after unspecified d later pdu_len points t f h h' = ground (arith, f.has_addr, f.has_path)
