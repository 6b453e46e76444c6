-- ===== src/Client/Tests/Shell.antt =====
-- The theorems on the commands `userctx`, `creds`, `query` and `dns` at concrete inputs.
use riot_playground.Common.{
  ℕ, zero, suc, ◌≡◌, ◌≢◌, refl, List, [], ◌∷◌, Bool, true, false, Option, none, arith, replicate,
  take, codes, All,
}
use riot_playground.Common.Int.{ℤ, pos}
use riot_playground.Common.Chars.{atoi, int_to_u16, until_nul, str_eq}
use riot_playground.Client.Hex.Reference.{print_hex}
use riot_playground.Client.Context.{Context, Peer, Userctx, parse_i64}
use riot_playground.Client.Context.Sequence.{userctx_sequence, Wanted, HasRoom, HasPeer, run_all}
use riot_playground.Client.Creds.{Credential, creds}
use riot_playground.Client.Creds.Store.{IsAdd, creds_overrun, creds_accepted}
use riot_playground.Client.Commands.{Resolver}

abbrev peer : Peer
peer = record { id = replicate 7 0; id_len = 0; key = replicate 32 0 }

abbrev fresh : Userctx
fresh = record {
  context = record { alg_num = pos 0; common_iv = replicate 20 0; sender = peer; recipient = peer };
  added = [];
}

-- The lengths of an algorithm with a nonce of two bytes and keys of one.
abbrev two : ℤ → ℕ
two n = 2

abbrev one : ℤ → ℕ
one n = 1

abbrev accepts : Context → Bool
accepts c = true

number_10 : parse_i64 (codes "10") ≡ (true, pos 10)
unfolding parse_i64
number_10 = refl

wanted : Wanted 7 two one accepts (pos 10) (1 ∷ []) (5 ∷ [])
wanted = record {
  id_bytes = (omega arith, tt);
  key_bytes = (omega arith, tt);
  id_given = omega arith;
  id_fits = omega arith;
  key_size = refl;
}

room : HasRoom 7 two one accepts (pos 10) fresh.context
room = record {
  iv_room = omega arith;
  sender_room = omega arith;
  sender_key_room = omega arith;
  recipient_room = omega arith;
  recipient_key_room = omega arith;
}

userctx_sequence_example :
    let (failed, u') =
      run_all 7 two one accepts
        ((codes "u" ∷ codes "-i" ∷ codes "10" ∷ print_hex (3 ∷ 4 ∷ []) ∷ [])
          ∷ (codes "u" ∷ codes "-s" ∷ print_hex (1 ∷ []) ∷ print_hex (5 ∷ []) ∷ [])
          ∷ (codes "u" ∷ codes "-r" ∷ print_hex (1 ∷ []) ∷ print_hex (5 ∷ []) ∷ [])
          ∷ (codes "u" ∷ codes "-c" ∷ [])
          ∷ [])
        fresh in
    (failed ≡ 0)
    × (c : Context) × (u'.added ≡ c ∷ [])
    × (c.alg_num ≡ pos 10)
    × (take 2 c.common_iv ≡ 3 ∷ 4 ∷ [])
    × HasPeer 7 two one accepts (1 ∷ []) (5 ∷ []) c.sender
    × HasPeer 7 two one accepts (1 ∷ []) (5 ∷ []) c.recipient
userctx_sequence_example =
    userctx_sequence 7 two one accepts (codes "u") (codes "10") (3 ∷ 4 ∷ []) (1 ∷ []) (5 ∷ [])
      (1 ∷ []) (5 ∷ []) (pos 10) fresh number_10 (λ e. cc) (omega arith, (omega arith, tt)) refl
      wanted wanted room (λ c. refl)

abbrev no_credential : Credential
no_credential = record {
  tag = 0;
  id_len = 0;
  key_len = 0;
  id = replicate 32 0;
  key = replicate 32 0;
  overrun = false;
  removed = [];
}

abbrev add : Credential → Option ℕ
add c = none

abbrev long_id : List ℕ
long_id = replicate 32 b'x'

text : (n : ℕ) → All {A = ℕ} (λ c. c ≢ 0) (replicate n b'x')
text zero = tt
text (suc n) = ((λ e. absurd (omega arith)), text n)

long_add : IsAdd add (codes "7") long_id (codes "xx")
unfolding str_eq atoi
long_add = record {
  no_option = refl;
  tag_given = λ e. absurd (omega arith);
  id_fits = omega arith;
  key_fits = omega arith;
  id_text = text 32;
  key_text = text 2;
}

-- An ID of 32 bytes passes the end of its array.
creds_overrun_run :
    let c' = (creds add (codes "creds" ∷ codes "7" ∷ long_id ∷ codes "xx" ∷ []) no_credential).1 in
    (c'.tag ≡ int_to_u16 (atoi (codes "7")))
    × (c'.id_len ≡ 32)
    × (c'.key_len ≡ 2)
    × (c'.overrun ≡ true)
creds_overrun_run =
    creds_overrun add (codes "creds") (codes "7") long_id (codes "xx") no_credential long_add refl

short_add : IsAdd add (codes "7") (codes "xxx") (codes "xx")
unfolding str_eq atoi
short_add = record {
  no_option = refl;
  tag_given = λ e. absurd (omega arith);
  id_fits = omega arith;
  key_fits = omega arith;
  id_text = text 3;
  key_text = text 2;
}

short_stored :
    let (status, c') =
      creds add (codes "creds" ∷ codes "7" ∷ codes "xxx" ∷ codes "xx" ∷ []) no_credential in
    (status ≡ 0) × (until_nul c'.id ≡ codes "xxx") × (until_nul c'.key ≡ codes "xx")
short_stored =
    creds_accepted add (codes "creds") (codes "7") (codes "xxx") (codes "xx") no_credential
      short_add (omega arith) (omega arith) (λ c. refl)

abbrev resolve : Resolver
resolve hostname family = pos 16
