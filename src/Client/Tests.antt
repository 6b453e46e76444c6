-- ===== src/Client/Tests.antt =====
-- The theorems on the client of lndw22_doc at concrete inputs, with a buffer of 8 bytes.
mod Board
mod Shell
use riot_playground.Common.{
  ℕ, ◌+◌, ◌/◌, ◌≤◌, ◌<◌, ◌≡◌, refl, List, [], ◌∷◌, ◌++◌, true, arith, length,
}
use riot_playground.Common.Chars.{atoi, int_to_u8}
use riot_playground.Client.Hex.{hex_ends, parse_hex, parse_singlehex}
use riot_playground.Client.Hex.Reference.{
  print_hex, parse_hex-print_hex, length-parse_hex, Reads, parse_hex_sound,
}
use riot_playground.Client.Mock.{Mock, resp}
use riot_playground.Client.Mock.Chunks.{
  IsValid, resp-IsValid, copy_in_bounds, resp_chunks, continue_all, contents,
}

abbrev digits : List ℕ
digits = b'2' ∷ b'A' ∷ b'0' ∷ b'f' ∷ b'-' ∷ []

parses_digits : parse_hex digits 2 ≡ (true, 42 ∷ 15 ∷ [])
unfolding parse_hex parse_singlehex
parses_digits = refl

digits_read :
    parse_hex (print_hex (42 ∷ 255 ∷ []) ++ b'-' ∷ []) 2 ≡ (hex_ends (b'-' ∷ []), 42 ∷ 255 ∷ [])
digits_read = parse_hex-print_hex (42 ∷ 255 ∷ []) (b'-' ∷ []) (omega arith, (omega arith, tt))

parse_hex_sound_example : Reads digits (parse_hex digits 2).1 2
parse_hex_sound_example =
    parse_hex_sound digits 2 ((λ e. cc), ((λ e. cc), ((λ e. cc), ((λ e. cc), ((λ e. cc), tt)))))
      (unfold parse_hex parse_singlehex in refl)

abbrev three_bytes : Mock
three_bytes = record {
  response = 1 ∷ 2 ∷ 3 ∷ 0 ∷ 0 ∷ 0 ∷ 0 ∷ 0 ∷ [];
  response_len = 3;
  resp_code = 69;
}

three_bytes-IsValid : IsValid 8 three_bytes
three_bytes-IsValid = omega arith

abbrev name : List ℕ
name = b'r' ∷ []

abbrev code_69 : List ℕ
code_69 = b'6' ∷ b'9' ∷ []

resp-IsValid_run : IsValid 8 (resp 8 (name ∷ (b'-' ∷ b'c' ∷ []) ∷ digits ∷ []) three_bytes).1
resp-IsValid_run =
    resp-IsValid 8 (name ∷ (b'-' ∷ b'c' ∷ []) ∷ digits ∷ []) three_bytes three_bytes-IsValid

class_2 : int_to_u8 (atoi code_69) / 32 ≡ 2
unfolding atoi
class_2 = refl

resp_chunks_example :
    let (status, m1) = resp 8 (name ∷ code_69 ∷ print_hex (7 ∷ []) ∷ []) three_bytes in
    let (failed, m2) = continue_all 8 name ((8 ∷ 9 ∷ []) ∷ (10 ∷ []) ∷ []) m1 in
    (status ≡ 0)
    × (failed ≡ 0)
    × (contents m2 ≡ 7 ∷ 8 ∷ 9 ∷ 10 ∷ [])
    × (m2.resp_code ≡ int_to_u8 (atoi code_69))
resp_chunks_example =
    resp_chunks 8 name code_69 (7 ∷ []) ((8 ∷ 9 ∷ []) ∷ (10 ∷ []) ∷ []) three_bytes
      three_bytes-IsValid class_2 (omega arith, tt)
      ((omega arith, (omega arith, tt)), ((omega arith, tt), tt)) (omega arith)
