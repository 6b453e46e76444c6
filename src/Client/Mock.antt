-- ===== src/Client/Mock.antt =====
-- The mock response of lndw22_doc/client/main.c: `_copy_mock_response` and the command `resp`.
-- What the commands print is not modelled.
pub mod Chunks
use riot_playground.Common.{
  ℕ, ◌+◌, ◌/◌, ◌^◌, List, [], ◌∷◌, ◌&&◌, Option, none, some, leb, ltb, ◌==◌, if◌then◌else◌, length,
  get_or, write_at,
}
use riot_playground.Common.Chars.{str_eq, atoi, int_to_u8}
use riot_playground.Client.Hex.{parse_hex}

-- `_mock_response`, `_mock_response_len` and `_resp_code`.
pub record Mock : Type 0 where
  pub response : List ℕ
  pub response_len : ℕ
  pub resp_code : ℕ

-- `argv[i]`, where the code has tested that it is there.
abbrev pub arg : List (List ℕ) → ℕ → List ℕ
arg argv i = get_or argv i []

-- CONFIG_DNS_MSG_LEN, which the build sets.
module _ (msg_len : ℕ) where
  -- The number of bytes added, or `none` for -ENOBUFS.
  unfoldable pub copy_mock_response : List ℕ → Mock → Option ℕ × Mock
  copy_mock_response str m =
      let len = length str / 2 in
      let start = m.response_len in
      let (ok, bytes) = parse_hex str len in
      let written = record m { response = write_at m.response start bytes } in
      if leb msg_len (m.response_len + len)
      then (none, m)
      else if ok
      then (some len, record written { response_len = m.response_len + len })
      else (none, written)

  abbrev status_of : Option ℕ → ℕ
  status_of none = 1
  status_of (some size) = 0

  abbrev reply : Option ℕ × Mock → ℕ × Mock
  reply (size, m) = (status_of size, m)

  -- The exit status of the command, and the new state.
  unfoldable pub resp : List (List ℕ) → Mock → ℕ × Mock
  unfolding copy_mock_response
  resp argv m =
      let argc = length argv in
      let code = int_to_u8 (atoi (arg argv 1)) in
      let coded = record m { resp_code = code; response_len = 0 } in
      if ltb argc 2
      then (0, m)
      else if ltb 2 argc && str_eq (arg argv 1) (b'-' ∷ b'c' ∷ [])
      then reply (copy_mock_response (arg argv 2) m)
      else if ltb 2 argc && (code / 2 ^ 5 == 2)
      then reply (copy_mock_response (arg argv 2) coded)
      else (0, coded)
