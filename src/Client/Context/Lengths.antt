-- ===== src/Client/Context/Lengths.antt =====
-- What a sender's ID that is refused for its length leaves behind.
use riot_playground.Common.{
  ℕ, ◌/◌, ◌<◌, ◌≡◌, ◌≢◌, refl, List, [], ◌∷◌, Bool, true, false, ◌==◌, ltb, codes, length, arith,
}
use riot_playground.Common.Int.{ℤ}
use riot_playground.Common.Chars.{str_eq}
use riot_playground.Client.Context.{Context, Userctx, set_peer, userctx, is_zero}

module _ (keyid_maxlen : ℕ) (ivlength keylength : ℤ → ℕ) (accepts : Context → Bool) where
  abbrev refused : ℕ → Userctx → Userctx
  refused id_len u = record u {
    context = record u.context { sender = record u.context.sender { id_len = id_len } };
  }

  refuses :
      (name id_hex key_hex : List ℕ) (u : Userctx)
      → is_zero u.context.alg_num ≡ false
      → keyid_maxlen < length id_hex / 2
      → userctx keyid_maxlen ivlength keylength accepts
          (name ∷ codes "-s" ∷ id_hex ∷ key_hex ∷ [])
          u
        ≡ (1, refused (length id_hex / 2) u)
  unfolding userctx set_peer str_eq
  refuses name id_hex key_hex u alg long =
      let too_long : ltb keyid_maxlen (length id_hex / 2) ≡ true = ground arith in
      rw (userctx, alg, too_long) refl

  adds :
      (name : List ℕ) (u : Userctx)
      → is_zero u.context.alg_num ≡ false
      → u.context.sender.id_len ≢ 0
      → u.context.recipient.id_len ≢ 0
      → accepts u.context ≡ true
      → userctx keyid_maxlen ivlength keylength accepts (name ∷ codes "-c" ∷ []) u
        ≡ (0, record u { added = u.context ∷ u.added })
  unfolding userctx set_peer str_eq
  adds name u alg sender recipient ok =
      let some_sender : (u.context.sender.id_len == 0) ≡ false = ground (arith, sender) in
      let some_recipient : (u.context.recipient.id_len == 0) ≡ false = ground (arith, recipient) in
      rw (userctx, alg, some_sender, some_recipient, ok) refl

  -- When an algorithm is set, `-s` refuses an ID of more than OSCORE_KEYID_MAXLEN bytes but keeps its
  -- length, so that `-c`, with a recipient set, gives gcoap a context with a sender's ID longer than
  -- the array that holds it.
  pub refused_id_added :
      (name id_hex key_hex : List ℕ) (u : Userctx)
      → is_zero u.context.alg_num ≡ false
      → u.context.recipient.id_len ≢ 0
      → keyid_maxlen < length id_hex / 2
      → ((c : Context) → accepts c ≡ true)
      → let (refused, u1) =
          userctx keyid_maxlen ivlength keylength accepts
            (name ∷ codes "-s" ∷ id_hex ∷ key_hex ∷ [])
            u in
        let (added, u2) =
          userctx keyid_maxlen ivlength keylength accepts (name ∷ codes "-c" ∷ []) u1 in
        (refused ≡ 1)
        × (added ≡ 0)
        × (u2.added ≡ u1.context ∷ u.added)
        × (keyid_maxlen < u1.context.sender.id_len)
  refused_id_added name id_hex key_hex u alg recipient long ok =
      let u1 = refused (length id_hex / 2) u in
      let some_sender : length id_hex / 2 ≢ 0 = λ e. omega arith in
      rw
        (
          refuses name id_hex key_hex u alg long,
          adds name u1 alg some_sender recipient (ok u1.context),
        )
        (refl, refl, refl, long)
