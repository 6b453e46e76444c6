-- ===== src/Luke/Coap.antt =====
-- CoAP requests and responses as the handlers of lndw18_luke see them. Parsing and building the
-- messages is gcoap's part.
use riot_playground.Common.{ℕ, List, ◌&&◌, ◌==◌, Option, none, leb, if◌then◌else◌, length}
use riot_playground.Luke.Payload.{scan_payload}

pub data Method : Type 0 where
  get post other : Method

pub data Code : Type 0 where
  valid content bad_request : Code

pub record Request : Type 0 where
  pub method : Method
  pub content_type : ℕ
  pub payload : List ℕ

-- A response with its payload, or `none` where the handler returns 0.
abbrev pub Response : Type 0
Response = Option (Code × List ℕ)

-- COAP_FORMAT_JSON
abbrev pub json : ℕ
json = 50

-- The checks on a POST request whose payload is read by a format, and the number that they let
-- through. `least` and `most` are the sizes of the payload that the format allows.
unfoldable pub posted_number : List ℕ → ℕ → ℕ → Request → Option ℕ
posted_number key least most req =
    if leb least (length req.payload) && leb (length req.payload) most && req.content_type == json
    then scan_payload key req.payload
    else none
