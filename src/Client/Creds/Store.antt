-- ===== src/Client/Creds/Store.antt =====
-- What `creds` stores.
use riot_playground.Common.{
  ℕ, ◌≤◌, ◌<◌, ◌≡◌, ◌≢◌, refl, List, [], ◌∷◌, ◌++◌, false, ◌||◌, ltb, ◌==◌, arith, length, write_at,
  codes, All, Option, none,
}
use riot_playground.Common.Chars.{str_eq, atoi, int_to_u16, until_nul}
use riot_playground.Client.Creds.{Credential, creds}

-- A string without a NUL, and its NUL, in an array that is longer.
until_nul-strcpy :
    (array s : List ℕ)
    → length s < length array
    → All (λ c. c ≢ 0) s
    → until_nul (write_at array 0 (s ++ 0 ∷ [])) ≡ s
unfolding until_nul
until_nul-strcpy [] s h a = absurd (omega arith)
until_nul-strcpy (x ∷ array) [] h a = refl
until_nul-strcpy (x ∷ array) (c ∷ s) h (ne, a) =
    ground (arith, ne, until_nul-strcpy array s (omega arith) a)

module _ (add : Credential → Option ℕ) where
  -- The arguments of a command that adds a credential: a tag that is not 0 and not "-d", and two
  -- strings of at most 32 bytes.
  pub record IsAdd (tag id key : List ℕ) : Type 0 where
    pub no_option : str_eq tag (codes "-d") ≡ false
    pub tag_given : int_to_u16 (atoi tag) ≢ 0
    pub id_fits : length id ≤ 32
    pub key_fits : length key ≤ 32
    pub id_text : All (λ c. c ≢ 0) id
    pub key_text : All (λ c. c ≢ 0) key

  -- `creds` with a tag (neither 0 nor "-d") and two strings of at most 32 bytes stores the tag and
  -- both lengths, and writes past the end of an array exactly if one of the strings has 32 bytes.
  pub creds_overrun :
      (name tag id key : List ℕ) (c : Credential)
      → IsAdd tag id key
      → c.overrun ≡ false
      → let c' = (creds add (name ∷ tag ∷ id ∷ key ∷ []) c).1 in
        (c'.tag ≡ int_to_u16 (atoi tag))
        × (c'.id_len ≡ length id)
        × (c'.key_len ≡ length key)
        × (c'.overrun ≡ (length id == 32 || length key == 32))
  unfolding creds
  creds_overrun name tag id key c v clean =
      let id_ok : ltb 32 (length id) ≡ false = ground (arith, v.id_fits) in
      let key_ok : ltb 32 (length key) ≡ false = ground (arith, v.key_fits) in
      let tag_ok : (int_to_u16 (atoi tag) == 0) ≡ false = ground (arith, v.tag_given) in
      rw (creds, v.no_option, tag_ok, id_ok, key_ok, clean)
        (refl, refl, refl, ground (arith, v.id_fits, v.key_fits))

  -- `creds` with a tag (neither 0 nor "-d") and two strings of at most 32 bytes, each shorter than
  -- the array for it, stores both strings with their NUL, and succeeds if gcoap adds every
  -- credential.
  pub creds_accepted :
      (name tag id key : List ℕ) (c : Credential)
      → IsAdd tag id key
      → length id < length c.id
      → length key < length c.key
      → ((c' : Credential) → add c' ≡ none)
      → let (status, c') = creds add (name ∷ tag ∷ id ∷ key ∷ []) c in
        (status ≡ 0) × (until_nul c'.id ≡ id) × (until_nul c'.key ≡ key)
  unfolding creds
  creds_accepted name tag id key c v less less' added =
      let id_ok : ltb 32 (length id) ≡ false = ground (arith, v.id_fits) in
      let key_ok : ltb 32 (length key) ≡ false = ground (arith, v.key_fits) in
      let tag_ok : (int_to_u16 (atoi tag) == 0) ≡ false = ground (arith, v.tag_given) in
      rw (creds, v.no_option, tag_ok, id_ok, key_ok, added)
        (refl, until_nul-strcpy c.id id less v.id_text, until_nul-strcpy c.key key less' v.key_text)
