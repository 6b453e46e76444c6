-- ===== src/Luke/Game/Points.antt =====
-- Every press of the button becomes a point of the display.
use riot_playground.Common.{
  ℕ, zero, suc, ◌+◌, ◌*◌, ◌^◌, ◌≤◌, ◌<◌, ◌≡◌, refl, sym, ap, ◌∙◌, List, [], ◌∷◌, Bool, true, ◌&&◌,
  ltb, u32, arith, length, get_or,
}
use riot_playground.Common.Chars.{until_nul}
use riot_playground.Luke.Payload.{points_key, print_payload}
use riot_playground.Luke.Coap.{post, json}
use riot_playground.Luke.Target.{Sent, Target, post_points_to_target}
use riot_playground.Luke.Target.Post.{Defined, post_after}
use riot_playground.Luke.Display.{Display, luke_points, increment_points, round}
use riot_playground.Luke.Dino.Moves.{posted_number-print_payload}
use riot_playground.Luke.Controller.{
  Controller, increment_counter, enable_button, Reach, boot, press, debounced, next,
}
use riot_playground.Luke.Controller.Invariant.{accounted, Step-accounted, total}
use riot_playground.Luke.Controller.Quiet.{Steps, done, go, Quiet, posts_all}
use riot_playground.Luke.Game.{post_all, deliver, run_rounds}

counted_exactly :
    (s : Controller) (n : ℕ)
    → suc n < 2 ^ 32
    → accounted s ≡ n
    → accounted (increment_counter s) ≡ suc n
unfolding increment_counter
counted_exactly s n few h = ground arith

-- Below 2 ^ 32 presses, none is lost.
accounted_exactly : {n : ℕ} {s : Controller} → n < 2 ^ 32 → Reach n s → accounted s ≡ n
unfolding enable_button
accounted_exactly few boot = refl
accounted_exactly few (press {n} {s} r e) =
    counted_exactly s n few (accounted_exactly (omega arith) r)
accounted_exactly few (debounced r) = accounted_exactly few r
accounted_exactly few (next r t) = Step-accounted t ∙ accounted_exactly few r

Steps-Reach : {n : ℕ} {s s' : Controller} → Reach n s → Steps s s' → Reach n s'
Steps-Reach r done = r
Steps-Reach r (go t ts) = Steps-Reach (next r t) ts

abbrev pub message_of : Target → ℕ → Sent
message_of t c = record {
  remote = t.remote;
  uri_path = until_nul t.path;
  body = print_payload points_key c;
}

-- The messages of the numbers.
abbrev pub messages : Target → List ℕ → List Sent
messages t [] = []
messages t (c ∷ cs) = message_of t c ∷ messages t cs

-- The posts leave the target as it is, but for the time and the messages.
pub record Follows (t : Target) (ms : List Sent) (t' : Target) : Type 0 where
  pub same_remote : t'.remote ≡ t.remote
  pub same_path : t'.path ≡ t.path
  pub in_range : t'.victory_last_sent < 2 ^ 32
  pub all_sent : t'.sent ≡ ms

module _ (unspecified : List ℕ → Bool) (elapsed : ℕ → ℕ) (pdu_len : ℕ) where
  abbrev pub InTime : ℕ → Type 0
  InTime d = (0 < d) × (d < 4293967297)

  kept_by_post :
      (now points : ℕ) (t : Target)
      → now < 2 ^ 32
      → t.victory_last_sent < 2 ^ 32
      → let t' = (post_points_to_target unspecified now now pdu_len points t).1 in
        (t'.remote ≡ t.remote) × (t'.path ≡ t.path) × (t'.victory_last_sent < 2 ^ 32)
  unfolding post_points_to_target
  kept_by_post now points t h h' = ground arith

  post-Follows :
      (c d : ℕ) (t t' : Target) (ms : List Sent)
      → Defined unspecified t
      → InTime d
      → Follows t ms t'
      → let now = u32 (t'.victory_last_sent + d) in
        Follows t (message_of t c ∷ ms) (post_points_to_target unspecified now now pdu_len c t').1
  post-Follows c d t t' ms f (some_time, soon) v =
      let now = u32 (t'.victory_last_sent + d) in
      let f' : Defined unspecified t' = record {
        has_addr = ap (λ r. unspecified r.addr) v.same_remote ∙ f.has_addr;
        has_path = λ e. f.has_path (sym (ap (λ p. get_or p 0 0) v.same_path) ∙ e);
      } in
      let (remote, path, range) = kept_by_post now c t' (omega arith) v.in_range in
      let on : (ltb 0 d && ltb d 4293967297) ≡ true = ground arith in
      let after = post_after unspecified d now pdu_len c t' f' v.in_range (omega arith) in
      record {
        same_remote = remote ∙ v.same_remote;
        same_path = path ∙ v.same_path;
        in_range = range;
        all_sent = after ∙ rw (on, v.same_remote, v.same_path, v.all_sent) refl;
      }

  pub post_all-Follows :
      (cs : List ℕ) (t : Target)
      → Defined unspecified t
      → ((k : ℕ) → InTime (elapsed k))
      → t.victory_last_sent < 2 ^ 32
      → t.sent ≡ []
      → Follows t (messages t cs) (post_all unspecified elapsed pdu_len cs t)
  unfolding post_all
  post_all-Follows [] t f in_time range fresh = record {
    same_remote = refl;
    same_path = refl;
    in_range = range;
    all_sent = fresh;
  }
  post_all-Follows (c ∷ cs) t f in_time range fresh =
      post-Follows c (elapsed (length cs)) t (post_all unspecified elapsed pdu_len cs t)
        (messages t cs) f (in_time (length cs)) (post_all-Follows cs t f in_time range fresh)

-- How many rounds the main loop of the display makes up to message `n`.
abbrev pub rounds_made : (ℕ → List (Bool × Bool)) → ℕ → ℕ
rounds_made rounds zero = length (rounds 0)
rounds_made rounds (suc n) = length (rounds (suc n)) + rounds_made rounds n

-- Between `d` and `d'`, `n` points come in and the main loop makes `k` rounds, each of which takes
-- two points at most; and no victory is counted.
pub record Gains (n k : ℕ) (d d' : Display) : Type 0 where
  pub no_more : d'.points ≤ d.points + n
  pub no_less : d.points + n ≤ d'.points + 2 * k
  pub no_victory : d'.in_victory_cond ≤ d.in_victory_cond

module _ (led_cnt : ℕ) (strip : led_cnt < 256) where
  incremented :
      (observed : Bool) (c : ℕ) (d : Display)
      → d.points + c ≤ led_cnt
      → Gains c 0 d (increment_points led_cnt observed c d)
  unfolding increment_points
  incremented observed c d room = ground arith

  dropped_by_round :
      (points_observed difficulty_observed : Bool) (d : Display)
      → d.points ≤ led_cnt
      → Gains 0 1 d (round led_cnt points_observed difficulty_observed d).1
  unfolding round
  dropped_by_round points_observed difficulty_observed d room = ground arith

  Gains-run_rounds :
      (rs : List (Bool × Bool)) (d : Display)
      → d.points ≤ led_cnt
      → Gains 0 (length rs) d (run_rounds led_cnt rs d)
  unfolding run_rounds
  Gains-run_rounds [] d room = omega arith
  Gains-run_rounds ((points_observed, difficulty_observed) ∷ rs) d room =
      let one = dropped_by_round points_observed difficulty_observed d room in
      let more =
        Gains-run_rounds rs (round led_cnt points_observed difficulty_observed d).1
          (omega (arith, one)) in
      omega (arith, one, more)

  -- A message adds its points.
  Gains-luke_points :
      (observed : Bool) (t : Target) (c : ℕ) (d : Display)
      → c < 1000
      → d.points + c ≤ led_cnt
      → Gains c 0 d
          (luke_points led_cnt observed
            (record { method = post; content_type = json; payload = (message_of t c).body })
            d).1
  unfolding luke_points
  Gains-luke_points observed t c d few room =
      rw (luke_points, posted_number-print_payload c few) (incremented observed c d room)

  length-messages : (t : Target) (cs : List ℕ) → length (messages t cs) ≡ length cs
  length-messages t [] = refl
  length-messages t (c ∷ cs) = ap suc (length-messages t cs)

  Gains-deliver :
      (observed : ℕ → Bool) (rounds : ℕ → List (Bool × Bool)) (t : Target) (cs : List ℕ)
      (d : Display)
      → total cs < 1000
      → d.points + total cs ≤ led_cnt
      → Gains
          (total cs)
          (rounds_made rounds (length cs))
          d
          (deliver led_cnt observed rounds (messages t cs) d)
  unfolding deliver
  Gains-deliver observed rounds t [] d few room =
      omega (arith, Gains-run_rounds (rounds 0) d (omega arith))
  Gains-deliver observed rounds t (c ∷ cs) d few room =
      let before = Gains-deliver observed rounds t cs d (omega arith) (omega arith) in
      let d1 = deliver led_cnt observed rounds (messages t cs) d in
      let seen = observed (length (messages t cs)) in
      let one = Gains-luke_points seen t c d1 (omega arith) (omega (arith, before)) in
      let d2 =
        (luke_points led_cnt seen
          (record { method = post; content_type = json; payload = (message_of t c).body }) d1).1 in
      let after =
        Gains-run_rounds (rounds (suc (length (messages t cs)))) d2 (omega (arith, before, one)) in
      let same = ap (λ n. length (rounds (suc n))) (length-messages t cs) in
      omega (arith, before, one, after, same)

-- A button that is pressed `n` times, fewer than 1000, and then left alone, however its presses,
-- its timers and its client were interleaved, comes to rest; and with a target set, a clock on which
-- the posts are at least a microsecond and at most 2 ^ 32 - 10 ^ 6 apart, a network that delivers
-- them, and room for the points on a strip of at most 255 LEDs, the display has then gained `n`
-- points, less those that its own main loop has dropped meanwhile, which are at most two for each
-- round that it made before, between and after the messages; and it has counted no victory. Nobody
-- else changes the display meanwhile: no other message for it and no push of its own button.
pub presses_are_points :
    (led_cnt : ℕ) (observed : ℕ → Bool) (rounds : ℕ → List (Bool × Bool))
    (unspecified : List ℕ → Bool) (elapsed : ℕ → ℕ) (pdu_len : ℕ) (t : Target) (d : Display) {n : ℕ}
    {s : Controller}
    → Reach n s
    → n < 1000
    → Defined unspecified t
    → t.victory_last_sent < 2 ^ 32
    → t.sent ≡ []
    → ((k : ℕ) → (0 < elapsed k) × (elapsed k < 4293967297))
    → d.points + n ≤ led_cnt
    → led_cnt < 256
    → (s' : Controller) × Steps s s'
      × Quiet s'
      × (let sent = (post_all unspecified elapsed pdu_len s'.posted t).sent in
          let d' = deliver led_cnt observed rounds sent d in
          let k = rounds_made rounds (length s'.posted) in
          (d'.points ≤ d.points + n)
          × (d.points + n ≤ d'.points + 2 * k)
          × (d'.in_victory_cond ≤ d.in_victory_cond))
presses_are_points led_cnt observed rounds unspecified elapsed pdu_len t d {n} {s} r few f range
      fresh in_time room strip =
    let (s', steps, quiet, posted) = posts_all r in
    let exact = accounted_exactly (omega arith) (Steps-Reach r steps) in
    let all : total s'.posted ≡ n = omega (arith, exact, posted) in
    let sent = post_all-Follows unspecified elapsed pdu_len s'.posted t f in_time range fresh in
    let gains =
      Gains-deliver led_cnt strip observed rounds t s'.posted d (omega (arith, all))
        (omega (arith, all)) in
    (
      s',
      steps,
      quiet,
      rw (sent.all_sent)
          (omega (arith, all, gains), omega (arith, all, gains), omega (arith, gains)),
    )
