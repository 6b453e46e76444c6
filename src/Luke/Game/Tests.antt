-- ===== src/Luke/Game/Tests.antt =====
-- One press of the button, up to the display, and a display that is full five times.
use riot_playground.Common.{
  ℕ, ◌+◌, ◌*◌, ◌≤◌, length, refl, List, [], ◌∷◌, Bool, true, false, arith, codes,
}
use riot_playground.Luke.Target.{Target}
use riot_playground.Luke.Display.{Display, initial}
use riot_playground.Luke.Controller.{
  Controller, initial as at_rest, Reach, boot, press, increment_counter,
}
use riot_playground.Luke.Controller.Quiet.{Steps, Quiet}
use riot_playground.Luke.Game.{post_all, deliver, deliver_to_dino}
use riot_playground.Luke.Game.Victory.{Moves, display_five_times_full}
use riot_playground.Luke.Display.Victory.{Match, matches_of, posts_of}
use riot_playground.Luke.Dino.{initial as standing}
use riot_playground.Luke.Game.Points.{rounds_made, presses_are_points}

abbrev target : Target
target = record {
  remote = record { family = 10; netif = 0; addr = 1 ∷ []; port = 5683 };
  path = codes "/dsp/points";
  victory_last_sent = 4294967000;
  overrun = false;
  sent = [];
}

-- The address with no bytes.
abbrev unspecified : List ℕ → Bool
unspecified [] = true
unspecified (b ∷ addr) = false

abbrev every_second : ℕ → ℕ
every_second k = 1000000

abbrev display : Display
display = record (initial (1 ∷ 2 ∷ 3 ∷ [])) { points = 2 }

once : Reach 1 (increment_counter at_rest)
once = press boot refl

-- The main loop makes a round before the first message and one after it.
abbrev one_round : ℕ → List (Bool × Bool)
one_round k = (true, false) ∷ []

presses_are_points_example :
    (s : Controller) × Steps (increment_counter at_rest) s
    × Quiet s
    × (let sent = (post_all unspecified every_second 40 s.posted target).sent in
        let d = deliver 3 (λ k. true) one_round sent display in
        let k = rounds_made one_round (length s.posted) in
        (d.points ≤ 2 + 1) × (2 + 1 ≤ d.points + 2 * k) × (d.in_victory_cond ≤ 0))
presses_are_points_example =
    presses_are_points 3 (λ k. true) one_round unspecified every_second 40 target display once
      (omega arith) (record { has_addr = refl; has_path = λ e. absurd (omega arith) }) (omega arith)
      refl (λ k. (omega arith, omega arith)) (omega arith) (omega arith)

-- Five increments on a strip of five, some of them observed.
abbrev nearly_full : Display
nearly_full = record (initial []) { points = 3 }

abbrev gain_of : ℕ → Bool → Match
gain_of p seen = record {
  gained = p;
  gain_observed = seen;
  points_observed = true;
  difficulty_observed = seen;
}

abbrev five_gains : List Match
five_gains =
    gain_of 3 true ∷ gain_of 4 false ∷ gain_of 3 false ∷ gain_of 900 true ∷ gain_of 5 true ∷ []

display_five_times_full_example :
    let posts = posts_of (matches_of 5 five_gains nearly_full).outputs in
    let sent = (post_all unspecified every_second 40 posts target).sent in
    Moves true (deliver_to_dino true sent standing)
display_five_times_full_example =
    display_five_times_full 5 five_gains nearly_full true unspecified every_second 40 target
      (omega arith) (omega arith) (ground arith) (omega arith)
      (record { near = omega arith; on_strip = omega arith; victories = refl }) refl
      (record { has_addr = refl; has_path = λ e. absurd (omega arith) }) (omega arith) refl
      (λ k. (omega arith, omega arith))
