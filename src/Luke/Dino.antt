-- ===== src/Luke/Dino.antt =====
-- lndw18_luke/dino/main.c: the dinosaur moves while a pin is set, for five seconds after points
-- have come in. Printing and the network's part are not modelled.
pub mod Moves
mod Tests
use riot_playground.Common.{
  ℕ, ◌*◌, ◌≡◌, List, [], ◌∷◌, Bool, true, false, not, Option, none, some, ltb, if◌then◌else◌,
}
use riot_playground.Luke.Payload.{points_key, print_payload}
use riot_playground.Luke.Coap.{
  Method, get, post, other, Code, valid, content, bad_request, Request, Response, posted_number,
}

-- The on-board LED, the pin of the motor, the timer that clears both, and the points that were sent
-- to observers.
pub record Dino : Type 0 where
  pub led : Bool
  pub pin : Bool
  pub clear_timer : Option ℕ
  pub notified : List ℕ

abbrev pub move_time : ℕ
move_time = 5 * 1000000

unfoldable pub clear_dino : Dino → Dino
clear_dino d = record d { led = false; pin = false; clear_timer = none }

unfoldable pub set_dino : Dino → Dino
set_dino d = record d { led = true; pin = true; clear_timer = some move_time }

unfoldable pub toggle_dino : Dino → Dino
toggle_dino d = record d { led = not d.led; pin = not d.pin; clear_timer = some move_time }

abbrev notify_points : Bool → ℕ → Dino → Dino
notify_points observed p d = if observed then record d { notified = p ∷ d.notified } else d

unfoldable pub dino_move : Bool → Request → Dino → Response × Dino
unfolding set_dino
dino_move observed req d = elim req.method [
  | get ↦ (some (content, print_payload points_key 0), d)
  | post ↦ elim (posted_number points_key 12 14 req) [
    | none ↦ (some (bad_request, []), d)
    | some p ↦ (some (valid, []), if ltb 0 p then notify_points observed p (set_dino d) else d)
  ]
  | other ↦ (none, d)
]

-- What `main` begins with.
abbrev pub initial : Dino
initial = record { led = false; pin = false; clear_timer = none; notified = [] }

-- Requests, the on-board button, the timer, which runs out when it is set only, and the end of
-- `main`, which sets the dinosaur moving.
pub data Step (d : Dino) : Dino → Type 0 where
  request : (observed : Bool) (req : Request) → Step d (dino_move observed req d).1
  button : Step d (toggle_dino d)
  main_ends : Step d (set_dino d)
  timeout : {n : ℕ} → d.clear_timer ≡ some n → Step d (clear_dino d)

pub data Reach : Dino → Type 0 where
  boot : Reach initial
  next : {d d' : Dino} → Reach d → Step d d' → Reach d'
