-- ===== src/Client/Context.antt =====
-- The command `userctx` of lndw22_doc/client/main.c, which collects an OSCORE context in four
-- steps. What it prints is not modelled; the OSCORE library and gcoap are parameters.
pub mod Lengths
pub mod Sequence
use riot_playground.Common.{
  ℕ, zero, suc, ◌+◌, ◌-◌, ◌*◌, ◌/◌, List, [], ◌∷◌, Bool, true, false, not, ◌&&◌, ◌||◌, leb, ltb,
  ◌==◌, if◌then◌else◌, length, get_or, write_at, codes,
}
use Prim.Native.Nat.{min}
use riot_playground.Common.Int.{ℤ, pos, negsuc}
use riot_playground.Common.Chars.{str_eq, is_digit, digits_value, skip_space, negate, char_at}
use riot_playground.Client.Hex.{parse_hex}
use riot_playground.Client.Mock.{arg}

unfoldable pub after_digits : List ℕ → List ℕ
after_digits [] = []
after_digits (c ∷ s) = let rest = after_digits s in if is_digit c then rest else c ∷ s

-- A number that `strtoll` has read, and what follows it; without a digit nothing is read.
abbrev number_at : Bool → List ℕ → List ℕ → ℤ × List ℕ
number_at is_negative s whole =
    let n = digits_value 0 s in
    if is_digit (char_at s 0)
    then (
      if is_negative then negate (min n 9223372036854775808) else pos (min n 9223372036854775807),
      after_digits s,
    )
    else (pos 0, whole)

strtoll_signed : List ℕ → List ℕ → ℤ × List ℕ
unfolding after_digits digits_value
strtoll_signed [] whole = (pos 0, whole)
strtoll_signed (c ∷ s) whole =
    if c == b'-'
    then number_at true s whole
    else if c == b'+'
    then number_at false s whole
    else number_at false (c ∷ s) whole

-- Whether the number ends where it may, and the number, which is stored in any case.
unfoldable pub parse_i64 : List ℕ → Bool × ℤ
unfolding strtoll_signed skip_space
parse_i64 chars =
    let (n, end) = strtoll_signed (skip_space chars) chars in
    let c = char_at end 0 in (c == b' ' || (c == 0 || c == 10), n)

-- Sender or recipient: the arrays for its ID and its key, and the length of the ID.
pub record Peer : Type 0 where
  pub id : List ℕ
  pub id_len : ℕ
  pub key : List ℕ

-- The static variables of `_userctx`, and the contexts that were given to gcoap, the latest first.
pub record Context : Type 0 where
  pub alg_num : ℤ
  pub common_iv : List ℕ
  pub sender : Peer
  pub recipient : Peer

pub record Userctx : Type 0 where
  pub context : Context
  pub added : List Context

abbrev pub is_zero : ℤ → Bool
is_zero (pos zero) = true
is_zero (pos (suc n)) = false
is_zero (negsuc n) = false

-- `_parse_hex` into an array.
abbrev pub store_hex : List ℕ → List ℕ → ℕ → Bool × List ℕ
store_hex array hex len = let (ok, bytes) = parse_hex hex len in (ok, write_at array 0 bytes)

-- OSCORE_KEYID_MAXLEN, the lengths that an algorithm asks for, and whether gcoap accepts a context.
module _ (keyid_maxlen : ℕ) (ivlength keylength : ℤ → ℕ) (accepts : Context → Bool) where
  -- The exit status, and the sender or recipient.
  unfoldable pub set_peer : ℤ → List ℕ → List ℕ → Peer → ℕ × Peer
  set_peer alg_num id_hex key_hex p =
      let id_len = length id_hex / 2 in
      let (id_ok, id) = store_hex p.id id_hex id_len in
      let (key_ok, key) = store_hex p.key key_hex (keylength alg_num) in
      let sized = record p { id_len = id_len } in
      if ltb keyid_maxlen id_len
      then (1, sized)
      else if not id_ok
      then (1, record sized { id = id })
      else (if key_ok then 0 else 1, record sized { id = id; key = key })

  unfoldable pub set_algorithm : List ℕ → List ℕ → Context → ℕ × Context
  set_algorithm number iv_hex c =
      let (number_ok, alg_num) = parse_i64 number in
      let (iv_ok, common_iv) = store_hex c.common_iv iv_hex (ivlength alg_num) in
      if number_ok
      then (if iv_ok then 0 else 1, record c { alg_num = alg_num; common_iv = common_iv })
      else (1, record c { alg_num = alg_num })

  unfoldable pub userctx : List (List ℕ) → Userctx → ℕ × Userctx
  unfolding set_peer set_algorithm
  userctx argv u =
      let argc = length argv in
      let cmd = arg argv 1 in
      let c = u.context in
      let (alg_status, alg) = set_algorithm (arg argv 2) (arg argv 3) c in
      let (sender_status, sender) = set_peer c.alg_num (arg argv 2) (arg argv 3) c.sender in
      let (recipient_status, recipient) =
        set_peer c.alg_num (arg argv 2) (arg argv 3) c.recipient in
      if ltb argc 2 || (not (str_eq cmd (codes "-c")) && ltb argc 4)
      then (1, u)
      else if str_eq cmd (codes "-i")
      then (alg_status, record u { context = alg })
      else if is_zero c.alg_num
      then (1, u)
      else if str_eq cmd (codes "-s")
      then (sender_status, record u { context = record c { sender = sender } })
      else if str_eq cmd (codes "-r")
      then (recipient_status, record u { context = record c { recipient = recipient } })
      else if str_eq cmd (codes "-c")
      then (if c.sender.id_len == 0 || c.recipient.id_len == 0
          then (1, u)
          else (if accepts c then (0, record u { added = c ∷ u.added }) else (1, u)))
      else (1, u)
