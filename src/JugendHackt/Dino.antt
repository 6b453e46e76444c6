-- ===== src/JugendHackt/Dino.antt =====
-- jugend-hackt-2018-10/dino/main.c: each POST, and each push of the on-board button, toggles the
-- pin of the motor and the LED. `Boot` has what `main` does.
use riot_playground.Common.{◌≡◌, refl, List, [], ◌∷◌, Bool, not, none, some, arith}
use riot_playground.Luke.Coap.{post, valid, Request, Response}

pub record Toy : Type 0 where
  pub led : Bool
  pub pin : Bool

unfoldable pub toggle_dino : Toy → Toy
toggle_dino d = record { led = not d.led; pin = not d.pin }

unfoldable pub dino_move : Request → Toy → Response × Toy
unfolding toggle_dino
dino_move req d = elim req.method [ post ↦ (some (valid, []), toggle_dino d) | _ ↦ (none, d) ]

-- Requests and pushes of the button, in order.
pub data Event : Type 0 where
  request : Request → Event
  push : Event

unfoldable pub after : List Event → Toy → Toy
unfolding dino_move
after [] d = d
after (request req ∷ es) d = after es (dino_move req d).1
after (push ∷ es) d = after es (toggle_dino d)

-- One POST keeps the LED showing the pin.
led-dino_move :
    (req : Request) (d : Toy) → d.led ≡ d.pin → (dino_move req d).1.led ≡ (dino_move req d).1.pin
unfolding dino_move toggle_dino
led-dino_move req d h = ground arith

-- The LED keeps showing the pin.
pub led-after : (es : List Event) (d : Toy) → d.led ≡ d.pin → (after es d).led ≡ (after es d).pin
unfolding after
led-after [] d h = h
led-after (request req ∷ es) d h = led-after es (dino_move req d).1 (led-dino_move req d h)
led-after (push ∷ es) d h = led-after es (toggle_dino d) (unfold toggle_dino in rw h refl)
