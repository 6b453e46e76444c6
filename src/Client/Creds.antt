-- ===== src/Client/Creds.antt =====
-- The command `creds` of lndw22_doc/client/main.c. gcoap's store of credentials is a parameter;
-- what the command prints is not modelled. Where an argument is missing, the empty string stands
-- for the NULL that the code passes on.
pub mod Store
use riot_playground.Common.{
  ℕ, zero, suc, ◌+◌, ◌-◌, List, [], ◌∷◌, ◌++◌, Bool, true, false, ◌&&◌, ◌||◌, leb, ltb, ◌==◌,
  if◌then◌else◌, length, write_at, codes, Option, none, some,
}
use riot_playground.Common.Chars.{str_eq, atoi, int_to_u16}
use riot_playground.Client.Mock.{arg}

abbrev pub psk_id_len : ℕ
psk_id_len = 32

abbrev pub psk_len : ℕ
psk_len = 32

-- `_credential`, with the arrays `_psk_id` and `_psk` that it points to. `overrun` records that a
-- write has passed the end of one of them; `removed` holds the tags that were removed, the latest
-- first.
pub record Credential : Type 0 where
  pub tag : ℕ
  pub id_len : ℕ
  pub key_len : ℕ
  pub id : List ℕ
  pub key : List ℕ
  pub overrun : Bool
  pub removed : List ℕ

-- `strcpy(array, s)`, where the array has `size` bytes.
abbrev strcpy : List ℕ → List ℕ → List ℕ
strcpy array s = write_at array 0 (s ++ 0 ∷ [])

-- `add` is `gcoap_dns_cred_add`: the number of the error, if there is one.
module _ (add : Credential → Option ℕ) where
  abbrev add_status : Option ℕ → ℕ
  add_status none = 0
  add_status (some errno) = errno

  -- The exit status, and the credential.
  unfoldable pub creds : List (List ℕ) → Credential → ℕ × Credential
  unfolding str_eq atoi
  creds argv c =
      let argc = length argv in
      let removed_tag = int_to_u16 (atoi (arg argv 2)) in
      let tagged = record c { tag = int_to_u16 (atoi (arg argv 1)) } in
      let id_sized = record tagged { id_len = length (arg argv 2) } in
      let sized = record id_sized { key_len = length (arg argv 3) } in
      let stored = record sized {
        id = strcpy c.id (arg argv 2);
        key = strcpy c.key (arg argv 3);
        overrun =
            c.overrun
            || (leb psk_id_len (length (arg argv 2)) || leb psk_len (length (arg argv 3)));
      } in
      if ltb 1 argc && str_eq (arg argv 1) (codes "-d")
      then (if removed_tag == 0
          then (1, c)
          else (0, record c { removed = removed_tag ∷ c.removed }))
      else if ltb argc 4
      then (1, c)
      else if tagged.tag == 0
      then (1, tagged)
      else if ltb psk_id_len id_sized.id_len
      then (1, id_sized)
      else if ltb psk_len sized.key_len
      then (1, sized)
      else (add_status (add stored), stored)
