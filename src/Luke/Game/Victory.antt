-- ===== src/Luke/Game/Victory.antt =====
-- A display that is full often enough makes the dinosaur move.
use riot_playground.Common.{
  ℕ, zero, suc, ◌+◌, ◌-◌, ◌^◌, ◌≤◌, ◌<◌, ◌≡◌, refl, ap, ◌∙◌, List, [], ◌++◌, Bool, true, none, some,
  replicate, Bool-cases, inl, inr, leb, if◌then◌else◌, arith, ltb, All, length,
}
use mathlib.Core.List.{append-nil}
use riot_playground.Luke.Payload.{points_key, print_payload}
use riot_playground.Luke.Target.{Target}
use riot_playground.Luke.Target.Post.{Defined}
use riot_playground.Luke.Display.{Display}
use riot_playground.Luke.Display.Victory.{
  Match, Fills, matches_of, NearTop, posts_of, posts-matches,
}
use mathlib.Core.Path.{subst}
use riot_playground.Luke.Coap.{post, json}
use riot_playground.Luke.Dino.{Dino, move_time, initial, dino_move, set_dino}
use riot_playground.Luke.Dino.Moves.{posted_number-print_payload}
use riot_playground.Luke.Game.{post_all, deliver_to_dino}
use riot_playground.Luke.Game.Points.{messages, post_all-Follows}

-- Whether the dinosaur moves, with its LED on and the timer set that will stop it.
abbrev pub Moves : Bool → Dino → Type 0
Moves moving d =
    (d.pin ≡ moving)
    × (d.led ≡ moving)
    × (d.clear_timer ≡ (if moving then some move_time else none))

moved :
    (observed : Bool) (c : ℕ) (d : Dino)
    → c < 1000
    → 0 < c
    → Moves true
        (dino_move observed
          (record { method = post; content_type = json; payload = print_payload points_key c })
          d).1
unfolding dino_move set_dino
moved observed c d few some_points =
    let positive : ltb 0 c ≡ true = ground arith in
    rw (dino_move, posted_number-print_payload c few, positive)
      (elim (Bool-cases observed) [
        | inl e ↦ rw e (refl, refl, refl)
        | inr e ↦ rw e (refl, refl, refl)
      ])

-- The dinosaur, which stands still, moves after any post of a full strip.
after_posts :
    (observed : Bool) (t : Target) (c k : ℕ)
    → c < 1000
    → 0 < c
    → Moves (ltb 0 k) (deliver_to_dino observed (messages t (replicate k c)) initial)
unfolding deliver_to_dino
after_posts observed t c zero few some_points = (refl, refl, refl)
after_posts observed t c (suc k) few some_points =
    let some_posts : ltb 0 (suc k) ≡ true = ground arith in
    rw some_posts (
      moved observed c (deliver_to_dino observed (messages t (replicate k c)) initial) few
        some_points)

-- On a strip of 5 to 255 LEDs that is full but for two points at most, with no victory counted and
-- nothing posted, let `n` (below 256) increments come in, each of at least 3 and below 2 ^ 15 points
-- and followed by a round of the main loop, whether or not the points and the difficulty are
-- observed. What the display has posted then goes by `post_points_to_target` to a target that is set,
-- on a clock on which the posts are at least a microsecond and at most 2 ^ 32 - 10 ^ 6 apart, and the
-- network delivers it to the dinosaur, which stands still at first and gets nothing else meanwhile.
-- Then the dinosaur moves, with its LED on and five seconds on the timer that stops it, exactly if
-- `n` is at least five.
pub display_five_times_full :
    (led_cnt : ℕ) (ms : List Match) (d : Display) (observed : Bool) (unspecified : List ℕ → Bool)
    (elapsed : ℕ → ℕ) (pdu_len : ℕ) (t : Target)
    → 5 ≤ led_cnt
    → led_cnt < 256
    → All Fills ms
    → length ms < 256
    → NearTop led_cnt 0 d
    → d.outputs ≡ []
    → Defined unspecified t
    → t.victory_last_sent < 2 ^ 32
    → t.sent ≡ []
    → ((k : ℕ) → (0 < elapsed k) × (elapsed k < 4293967297))
    → let posts = posts_of (matches_of led_cnt ms d).outputs in
      let sent = (post_all unspecified elapsed pdu_len posts t).sent in
      Moves (leb 5 (length ms)) (deliver_to_dino observed sent initial)
display_five_times_full led_cnt ms d observed unspecified elapsed pdu_len t h0 h1 h2 h4 near silent
      f range fresh in_time =
    let n = length ms in
    let posts = posts_of (matches_of led_cnt ms d).outputs in
    let exact : 0 + n - 4 - (0 - 4) ≡ n - 4 = omega arith in
    let counted : posts ≡ replicate (n - 4) led_cnt =
      posts-matches led_cnt 0 ms d h0 h1 h2 (omega arith) near
      ∙ ap (λ k. replicate k led_cnt ++ posts_of d.outputs) exact
      ∙ ap (λ outs. replicate (n - 4) led_cnt ++ posts_of outs) silent
      ∙ append-nil (replicate (n - 4) led_cnt) in
    let sent : (post_all unspecified elapsed pdu_len posts t).sent
        ≡ messages t (replicate (n - 4) led_cnt) =
      (post_all-Follows unspecified elapsed pdu_len posts t f in_time range fresh).all_sent
      ∙ ap (messages t) counted in
    let same : ltb 0 (n - 4) ≡ leb 5 n = ground arith in
    rw sent (
      subst
        (λ b. Moves b (deliver_to_dino observed (messages t (replicate (n - 4) led_cnt)) initial))
        same (after_posts observed t led_cnt (n - 4) (omega arith) (omega arith)))
