-- ===== src/Luke/Game.antt =====
-- The parts of lndw18_luke together: the controller's numbers go through `post_points_to_target` of
-- common/common.c, and the network delivers the messages in order to `/dsp/points` of the display;
-- those of the display go the same way to `/dino/points`.
pub mod Points
pub mod Victory
mod Tests
use riot_playground.Common.{ℕ, suc, ◌+◌, List, [], ◌∷◌, Bool, u32, length}
use riot_playground.Luke.Coap.{Request, post, json}
use riot_playground.Luke.Target.{Sent, Target, post_points_to_target}
use riot_playground.Luke.Display.{Display, luke_points, round}
use riot_playground.Luke.Dino.{Dino, dino_move}

-- Number `k` is posted `elapsed k` microseconds after the post before it.
module _ (unspecified : List ℕ → Bool) (elapsed : ℕ → ℕ) (pdu_len : ℕ) where
  -- The target after the numbers that the controller has posted, the newest first.
  unfoldable pub post_all : List ℕ → Target → Target
  post_all [] t = t
  post_all (c ∷ cs) t =
      let t' : Target = post_all cs t in
      let now = u32 (t'.victory_last_sent + elapsed (length cs)) in
      (post_points_to_target unspecified now now pdu_len c t').1

module _ (led_cnt : ℕ) where
  -- Rounds of the display's main loop, each with whether the points and the difficulty are observed.
  unfoldable pub run_rounds : List (Bool × Bool) → Display → Display
  run_rounds [] d = d
  run_rounds ((points_observed, difficulty_observed) ∷ rs) d =
      run_rounds rs (round led_cnt points_observed difficulty_observed d).1

  -- The display after messages, the newest first. Its main loop makes `rounds 0` before the first and
  -- `rounds k` after message `k`, where a round and a handler each run undivided; `observed k` is
  -- whether the points are observed when message `k`, from 0 on, comes in.
  module _ (observed : ℕ → Bool) (rounds : ℕ → List (Bool × Bool)) where
    unfoldable pub deliver : List Sent → Display → Display
    unfolding run_rounds
    deliver [] d = run_rounds (rounds 0) d
    deliver (m ∷ ms) d =
        let req : Request = record { method = post; content_type = json; payload = m.body } in
        let d' : Display = deliver ms d in
        run_rounds (rounds (suc (length ms))) (luke_points led_cnt (observed (length ms)) req d').1

-- The dinosaur after messages, the newest first.
unfoldable pub deliver_to_dino : Bool → List Sent → Dino → Dino
deliver_to_dino observed [] d = d
deliver_to_dino observed (m ∷ ms) d =
    (dino_move observed (record { method = post; content_type = json; payload = m.body })
      (deliver_to_dino observed ms d)).1
