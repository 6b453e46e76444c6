-- ===== src/Client/Hex.antt =====
-- The hexadecimal parser of lndw22_doc/client/main.c: `_parse_singlehex` and `_parse_hex`.
pub mod Reference
use Prim.Native.Nat.{bit_or}
use riot_playground.Common.{
  ℕ, zero, suc, ◌+◌, ◌-◌, ◌*◌, List, [], ◌∷◌, Bool, true, false, ◌&&◌, Option, none, some, leb,
  ◌==◌, if◌then◌else◌, u8, drop,
}
use riot_playground.Common.Chars.{char_at}

-- What is stored through `target`, if the function returns true.
unfoldable pub parse_singlehex : ℕ → Option ℕ
parse_singlehex hex =
    if leb b'0' hex && leb hex b'9'
    then some (hex - b'0')
    else if leb b'a' hex && leb hex b'f'
    then some (hex - b'a' + 10)
    else if leb b'A' hex && leb hex b'F'
    then some (hex - b'A' + 10)
    else none

-- What follows the digits: a '-' is skipped, and then the string must end.
abbrev pub hex_ends : List ℕ → Bool
hex_ends hex = if char_at hex 0 == b'-' then char_at hex 1 == 0 else char_at hex 0 == 0

-- The result, and the bytes stored from `data` on; a failure may come after the first half of a
-- byte is stored.
unfoldable pub parse_hex : List ℕ → ℕ → Bool × List ℕ
parse_hex hex zero = (hex_ends hex, [])
parse_hex hex (suc len) = elim (parse_singlehex (char_at hex 0)) [
  | none ↦ (false, [])
  | some high ↦ elim (parse_singlehex (char_at hex 1)) [
    | none ↦ (false, u8 (high * 16) ∷ [])
    | some low ↦
        let (ok, rest) = parse_hex (drop 2 hex) len in (ok, u8 (bit_or (u8 (high * 16)) low) ∷ rest)
  ]
]
