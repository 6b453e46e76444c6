-- ===== src/Luke/Dino/Tests.antt =====
-- The theorems on the dinosaur for a post of 37 points.
use riot_playground.Common.{◌≡◌, true, some, arith}
use riot_playground.Luke.Payload.{points_key, print_payload}
use riot_playground.Luke.Coap.{post, Request, json, posted_number}
use riot_playground.Luke.Dino.{dino_move, initial, boot, next, request}
use riot_playground.Luke.Dino.Moves.{StopsSoon, Reach-StopsSoon, posted_number-print_payload}

abbrev points_37 : Request
points_37 = record { method = post; content_type = json; payload = print_payload points_key 37 }

Reach-StopsSoon_example : StopsSoon (dino_move true points_37 initial).1
Reach-StopsSoon_example = Reach-StopsSoon (next boot (request true points_37))

posted_number-print_payload_run : posted_number points_key 12 14 points_37 ≡ some 37
posted_number-print_payload_run = posted_number-print_payload 37 (omega arith)
