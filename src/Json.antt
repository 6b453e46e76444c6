-- ===== src/Json.antt =====
-- The tokens of the jsmn parser, and the comparison of a token with a key: `_jsoneq` of
-- lndw18_luke/common/common.c, `jsoneq` of jugend-hackt-2018-10/button/main.c.
use riot_playground.Common.{ℕ, ◌-◌, List, Bool, true, false, ◌&&◌, ◌==◌, length, take, drop, codes}
use riot_playground.Common.Chars.{str_eq}

pub data TokenType : Type 0 where
  undefined object array string primitive : TokenType

-- jsmntok_t. `start` and `end` of a parsed token are not negative.
pub record Token : Type 0 where
  pub kind : TokenType
  pub start : ℕ
  pub end : ℕ

abbrev pub is_string : Token → Bool
is_string tok = elim tok.kind [ string ↦ true | _ ↦ false ]

abbrev pub is_object : Token → Bool
is_object tok = elim tok.kind [ object ↦ true | _ ↦ false ]

abbrev pub token_len : Token → ℕ
token_len tok = tok.end - tok.start

-- The text of a token.
abbrev pub token_text : List ℕ → Token → List ℕ
token_text json tok = take (token_len tok) (drop tok.start json)

unfoldable pub jsoneq : List ℕ → Token → List ℕ → Bool
jsoneq json tok s = is_string tok && (length s == token_len tok && str_eq (token_text json tok) s)

abbrev pub addr_key : List ℕ
addr_key = codes "addr"

abbrev pub path_key : List ℕ
path_key = codes "path"
