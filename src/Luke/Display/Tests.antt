-- ===== src/Luke/Display/Tests.antt =====
-- The theorems on the display at concrete inputs.
use riot_playground.Common.{◌≡◌, [], ◌∷◌, true, some, arith, get_or}
use riot_playground.Luke.Payload.{points_key, print_payload, scan_payload}
use riot_playground.Luke.Payload.Decimal.{scan-print_payload}
use riot_playground.Luke.Coap.{Request, post, json}
use riot_playground.Luke.Display.{Display, display_points, luke_points, initial}
use riot_playground.Luke.Display.Strip.{display_points_lem}
use riot_playground.Luke.Display.Invariant.{IsValid, boot, next, points_request, Reach-IsValid}

payload_read : scan_payload points_key (print_payload points_key 107) ≡ some 107
payload_read = scan-print_payload points_key 107 (omega arith)

abbrev three_of_eight : Display
three_of_eight = record (initial (10 ∷ 20 ∷ 30 ∷ 40 ∷ [])) { points = 3 }

shown_point : get_or (display_points 8 true three_of_eight).leds 2 0 ≡ 30
shown_point = display_points_lem 8 true three_of_eight 2 (omega arith)

abbrev five_more : Request
five_more = record { method = post; content_type = json; payload = print_payload points_key 500 }

Reach-IsValid_example : IsValid 100 (luke_points 100 true five_more (initial [])).1
Reach-IsValid_example =
    Reach-IsValid 100 [] (omega arith) (omega arith) (next boot (points_request true five_more))
