-- ===== src/Client/Context/Sequence.antt =====
-- The four steps of `userctx`, in order, give gcoap the context that they describe.
use riot_playground.Common.{
  ℕ, zero, suc, ◌+◌, ◌/◌, ◌≤◌, ◌<◌, ◌≡◌, ◌≢◌, refl, List, [], ◌∷◌, Bool, true, false, ltb, ◌==◌,
  arith, length, write_at, take, take-write_at, All, codes, if_false,
}
use mathlib.Core.Path.{subst}
use mathlib.Core.List.{append-nil}
use riot_playground.Common.Int.{ℤ, pos, negsuc}
use riot_playground.Common.Chars.{str_eq}
use riot_playground.Client.Hex.{parse_hex}
use riot_playground.Client.Hex.Reference.{print_hex, IsByte, length-print_hex, parse_hex-print_hex}
use riot_playground.Client.Context.{
  Context, Peer, Userctx, parse_i64, set_peer, set_algorithm, userctx, is_zero,
}

parse_hex-printed :
    (bs : List ℕ) → All IsByte bs → parse_hex (print_hex bs) (length bs) ≡ (true, bs)
parse_hex-printed bs b =
    subst (λ s. parse_hex s (length bs) ≡ (true, bs)) (append-nil (print_hex bs))
      (parse_hex-print_hex bs [] b)

half_printed : (bs : List ℕ) → length (print_hex bs) / 2 ≡ length bs
half_printed bs = omega (arith, length-print_hex bs)

-- The bytes stand at the front of the array.
stored :
    (array bs : List ℕ) → length bs ≤ length array → take (length bs) (write_at array 0 bs) ≡ bs
stored array bs h = take-write_at array 0 (length bs) bs (omega arith) h

not_zero : (n : ℤ) → n ≢ pos 0 → is_zero n ≡ false
not_zero (pos zero) ne = absurd (ne refl)
not_zero (pos (suc n)) ne = refl
not_zero (negsuc n) ne = refl

module _ (keyid_maxlen : ℕ) (ivlength keylength : ℤ → ℕ) (accepts : Context → Bool) where
  set_peer-printed :
      (n : ℤ) (id key : List ℕ) (p : Peer)
      → All IsByte id
      → All IsByte key
      → length id ≤ keyid_maxlen
      → length key ≡ keylength n
      → set_peer keyid_maxlen ivlength keylength accepts n (print_hex id) (print_hex key) p
        ≡ (0, record { id = write_at p.id 0 id; id_len = length id; key = write_at p.key 0 key })
  unfolding set_peer
  set_peer-printed n id key p b c h e =
      let key_read =
        subst (λ k. parse_hex (print_hex key) k ≡ (true, key)) e (parse_hex-printed key c) in
      let short : ltb keyid_maxlen (length id) ≡ false = ground (arith, h) in
      rw (set_peer, half_printed id, parse_hex-printed id b, key_read, short) refl

  set_algorithm-printed :
      (number iv : List ℕ) (n : ℤ) (c : Context)
      → parse_i64 number ≡ (true, n)
      → All IsByte iv
      → length iv ≡ ivlength n
      → set_algorithm keyid_maxlen ivlength keylength accepts number (print_hex iv) c
        ≡ (0, record c { alg_num = n; common_iv = write_at c.common_iv 0 iv })
  unfolding set_algorithm
  set_algorithm-printed number iv n c e b h =
      let iv_read =
        subst (λ k. parse_hex (print_hex iv) k ≡ (true, iv)) h (parse_hex-printed iv b) in
      rw (set_algorithm, e, iv_read) refl

  abbrev run : List (List ℕ) → Userctx → ℕ × Userctx
  run = userctx keyid_maxlen ivlength keylength accepts

  run_i :
      (name a b : List ℕ) (u : Userctx)
      → run (name ∷ codes "-i" ∷ a ∷ b ∷ []) u ≡ (
        (set_algorithm keyid_maxlen ivlength keylength accepts a b u.context).0,
        record u {
          context = (set_algorithm keyid_maxlen ivlength keylength accepts a b u.context).1;
        },
      )
  unfolding userctx str_eq
  run_i name a b u = refl

  run_s :
      (name a b : List ℕ) (u : Userctx)
      → u.context.alg_num ≢ pos 0
      → let (status, p) =
          set_peer keyid_maxlen ivlength keylength accepts u.context.alg_num a b u.context.sender in
        run (name ∷ codes "-s" ∷ a ∷ b ∷ []) u
        ≡ (status, record u { context = record u.context { sender = p } })
  unfolding userctx str_eq
  run_s name a b u ne = if_false (is_zero u.context.alg_num) _ _ (not_zero u.context.alg_num ne)

  run_r :
      (name a b : List ℕ) (u : Userctx)
      → u.context.alg_num ≢ pos 0
      → let (status, p) =
          set_peer keyid_maxlen ivlength keylength accepts u.context.alg_num a b
            u.context.recipient in
        run (name ∷ codes "-r" ∷ a ∷ b ∷ []) u
        ≡ (status, record u { context = record u.context { recipient = p } })
  unfolding userctx str_eq
  run_r name a b u ne = if_false (is_zero u.context.alg_num) _ _ (not_zero u.context.alg_num ne)

  run_c :
      (name : List ℕ) (u : Userctx)
      → u.context.alg_num ≢ pos 0
      → 0 < u.context.sender.id_len
      → 0 < u.context.recipient.id_len
      → accepts u.context ≡ true
      → run (name ∷ codes "-c" ∷ []) u ≡ (0, record u { added = u.context ∷ u.added })
  unfolding userctx str_eq
  run_c name u ne h h' ok =
      let known = not_zero u.context.alg_num ne in
      let some_id : (u.context.sender.id_len == 0) ≡ false = ground (arith, h) in
      let some_id' : (u.context.recipient.id_len == 0) ≡ false = ground (arith, h') in
      rw (userctx, str_eq, known, some_id, some_id', ok) refl

  -- One command after the other: how many fail, and the state after them.
  pub run_all : List (List (List ℕ)) → Userctx → ℕ × Userctx
  run_all [] u = (0, u)
  run_all (argv ∷ commands) u =
      let (status, u') = userctx keyid_maxlen ivlength keylength accepts argv u in
      let (failed, u'') = run_all commands u' in (status + failed, u'')

  -- The arrays are as large as the lengths that are stored in them.
  pub record HasRoom (n : ℤ) (c : Context) : Type 0 where
    pub iv_room : ivlength n ≤ length c.common_iv
    pub sender_room : keyid_maxlen ≤ length c.sender.id
    pub sender_key_room : keylength n ≤ length c.sender.key
    pub recipient_room : keyid_maxlen ≤ length c.recipient.id
    pub recipient_key_room : keylength n ≤ length c.recipient.key

  -- A peer with this ID and this key.
  pub record HasPeer (id key : List ℕ) (p : Peer) : Type 0 where
    pub its_len : p.id_len ≡ length id
    pub its_id : take (length id) p.id ≡ id
    pub its_key : take (length key) p.key ≡ key

  -- The bytes of one sender or recipient.
  pub record Wanted (n : ℤ) (id key : List ℕ) : Type 0 where
    pub id_bytes : All IsByte id
    pub key_bytes : All IsByte key
    pub id_given : 0 < length id
    pub id_fits : length id ≤ keyid_maxlen
    pub key_size : length key ≡ keylength n

  -- The commands `-i`, `-s`, `-r` and `-c` in this order, with the number of an algorithm (not 0),
  -- hex digits for an initialisation vector and for keys of the lengths that it asks for, and hex
  -- digits for two IDs of 1 to OSCORE_KEYID_MAXLEN bytes, all succeed if the arrays of the context
  -- have room for IDs of that length, the keys and the vector, and gcoap accepts any context; the
  -- context that gcoap is given then holds that number and the bytes of the digits.
  pub userctx_sequence :
      (name number iv sid skey rid rkey : List ℕ) (n : ℤ) (u : Userctx)
      → parse_i64 number ≡ (true, n)
      → n ≢ pos 0
      → All IsByte iv
      → length iv ≡ ivlength n
      → Wanted n sid skey
      → Wanted n rid rkey
      → HasRoom n u.context
      → ((c : Context) → accepts c ≡ true)
      → let (failed, u') =
          run_all
            ((name ∷ codes "-i" ∷ number ∷ print_hex iv ∷ [])
              ∷ (name ∷ codes "-s" ∷ print_hex sid ∷ print_hex skey ∷ [])
              ∷ (name ∷ codes "-r" ∷ print_hex rid ∷ print_hex rkey ∷ [])
              ∷ (name ∷ codes "-c" ∷ [])
              ∷ [])
            u in
        (failed ≡ 0)
        × (c : Context) × (u'.added ≡ c ∷ u.added)
        × (c.alg_num ≡ n)
        × (take (length iv) c.common_iv ≡ iv)
        × HasPeer sid skey c.sender
        × HasPeer rid rkey c.recipient
  unfolding run_all
  userctx_sequence name number iv sid skey rid rkey n u e ne b h s r room ok =
      let c = u.context in
      let peer : List ℕ → List ℕ → Peer → Peer = λ id key p. record {
        id = write_at p.id 0 id;
        id_len = length id;
        key = write_at p.key 0 key;
      } in
      let c1 : Context = record c { alg_num = n; common_iv = write_at c.common_iv 0 iv } in
      let c2 : Context = record c1 { sender = peer sid skey c.sender } in
      let c3 : Context = record c2 { recipient = peer rid rkey c.recipient } in
      let u1 : Userctx = record u { context = c1 } in
      let u2 : Userctx = record u { context = c2 } in
      let u3 : Userctx = record u { context = c3 } in
      rw
        (
          run_i name number (print_hex iv) u,
          set_algorithm-printed number iv n c e b h,
          run_s name (print_hex sid) (print_hex skey) u1 ne,
          set_peer-printed n sid skey c.sender s.id_bytes s.key_bytes s.id_fits s.key_size,
          run_r name (print_hex rid) (print_hex rkey) u2 ne,
          set_peer-printed n rid rkey c.recipient r.id_bytes r.key_bytes r.id_fits r.key_size,
          run_c name u3 ne s.id_given r.id_given (ok c3),
        )
        (
          refl,
          c3,
          refl,
          refl,
          stored c.common_iv iv (omega (arith, h, room.iv_room)),
          record {
            its_len = refl;
            its_id = stored c.sender.id sid (omega (arith, s.id_fits, room.sender_room));
            its_key = stored c.sender.key skey (omega (arith, s.key_size, room.sender_key_room));
          },
          record {
            its_len = refl;
            its_id = stored c.recipient.id rid (omega (arith, r.id_fits, room.recipient_room));
            its_key =
                stored c.recipient.key rkey (omega (arith, r.key_size, room.recipient_key_room));
          },
        )
