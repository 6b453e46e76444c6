-- ===== src/Client/Mock/Chunks.antt =====
-- The mock response stays inside its buffer, and is put together from chunks of hex digits.
use riot_playground.Common.{
  ℕ, ◌+◌, ◌/◌, ◌<◌, ◌≡◌, refl, sym, ◌∙◌, ap, ◌⊎◌, inl, inr, List, [], ◌∷◌, ◌++◌, true, false,
  Option, none, some, arith, leb, length, take, Bool-cases, All, write_at, length-append,
  length-write_at, take-write_at, take-write_at_before,
}
use mathlib.Core.Path.{subst}
use mathlib.Core.List.{append-nil, append_assoc}
use riot_playground.Common.Chars.{str_eq, str_eq_sound, atoi, int_to_u8}
use riot_playground.Client.Hex.{parse_hex, hex_ends}
use riot_playground.Client.Hex.Reference.{
  print_hex, IsByte, length-print_hex, parse_hex-print_hex, length-parse_hex,
}
use riot_playground.Client.Mock.{Mock, copy_mock_response, resp}

abbrev pub contents : Mock → List ℕ
contents m = take m.response_len m.response

module _ (msg_len : ℕ) where
  -- The buffer has its size, and the response is shorter than it.
  pub record IsValid (m : Mock) : Type 0 where
    pub size : length m.response ≡ msg_len
    pub shorter : m.response_len < msg_len

  -- Whatever the arguments of `resp`, the response stays shorter than its buffer, and the buffer
  -- keeps its size.
  pub resp-IsValid : (argv : List (List ℕ)) (m : Mock) → IsValid m → IsValid (resp msg_len argv m).1
  unfolding resp
  resp-IsValid argv m v = grind (arith, length-write_at)

  -- Where the test of `_copy_mock_response` on the length passes, the bytes that `_parse_hex` stores
  -- end before the end of the buffer, whatever the string.
  pub copy_in_bounds :
      (str : List ℕ) (m : Mock)
      → IsValid m
      → m.response_len + length str / 2 < msg_len
      → m.response_len + length (parse_hex str (length str / 2)).1 < length m.response
  copy_in_bounds str m v h = omega (arith, length-parse_hex str (length str / 2))

  -- A failed copy keeps the code and the contents of the response.
  copy_failed :
      (str : List ℕ) (m : Mock)
      → (copy_mock_response msg_len str m).0 ≡ none
      → let m' = (copy_mock_response msg_len str m).1 in
        (contents m' ≡ contents m) × (m'.resp_code ≡ m.resp_code)
  unfolding copy_mock_response
  copy_failed str m e =
      ground
        (arith, take-write_at_before m.response m.response_len (parse_hex str (length str / 2)).1)

  copy_read :
      (str bytes : List ℕ) (len : ℕ) (m : Mock)
      → length str / 2 ≡ len
      → parse_hex str len ≡ (true, bytes)
      → m.response_len + len < msg_len
      → copy_mock_response msg_len str m ≡ (
        some len,
        record m {
          response = write_at m.response m.response_len bytes;
          response_len = m.response_len + len;
        },
      )
  unfolding copy_mock_response
  copy_read str bytes len m e p h = rw (e, p, over)
    where
      over : leb msg_len (m.response_len + len) ≡ false
      over = ground arith

  -- The bytes `bs` have been added to `m`.
  record Copied (bs : List ℕ) (m : Mock) (out : Option ℕ × Mock) : Type 0 where
    size : out.0 ≡ some (length bs)
    valid : IsValid out.1
    grown : out.1.response_len ≡ m.response_len + length bs
    added : contents out.1 ≡ contents m ++ bs
    same_code : out.1.resp_code ≡ m.resp_code

  -- The digits of bytes that fit are added to the response, with or without a '-' behind them.
  copy-print_hex :
      (bs rest : List ℕ) (m : Mock)
      → IsValid m
      → All IsByte bs
      → (rest ≡ []) ⊎ (rest ≡ b'-' ∷ [])
      → m.response_len + length bs < msg_len
      → Copied bs m (copy_mock_response msg_len (print_hex bs ++ rest) m)
  copy-print_hex bs rest m v b r h =
      let str = print_hex bs ++ rest in
      let halves : length str / 2 ≡ length bs =
        omega (arith, length-append (print_hex bs) rest, length-print_hex bs, length-rest) in
      let read : parse_hex str (length bs) ≡ (true, bs) =
        parse_hex-print_hex bs rest b ∙ ap (λ ok. (ok, bs)) ends in
      let fits =
        take-write_at m.response m.response_len (m.response_len + length bs) bs refl
          (omega arith) in
      rw (copy_read str bs (length bs) m halves read h) (record {
        size = refl;
        valid = omega (arith, length-write_at m.response m.response_len bs);
        grown = refl;
        added = fits;
        same_code = refl;
      })
    where
      length-rest : length rest < 2
      length-rest = ground arith

      ends : hex_ends rest ≡ true
      ends = ground arith

  -- `resp -c <digits>-` for each chunk in turn: how many of these fail, and the state after them.
  pub continue_all : List ℕ → List (List ℕ) → Mock → ℕ × Mock
  continue_all name [] m = (0, m)
  continue_all name (bs ∷ chunks) m =
      let (status, m') =
        resp msg_len (name ∷ (b'-' ∷ b'c' ∷ []) ∷ (print_hex bs ++ b'-' ∷ []) ∷ []) m in
      let (failed, m'') = continue_all name chunks m' in (status + failed, m'')

  -- The bytes of all chunks, in order.
  abbrev pub joined : List (List ℕ) → List ℕ
  joined [] = []
  joined (bs ∷ chunks) = bs ++ joined chunks

  continue_lem :
      (name str : List ℕ) (m : Mock) {n : ℕ}
      → (copy_mock_response msg_len str m).0 ≡ some n
      → resp msg_len (name ∷ (b'-' ∷ b'c' ∷ []) ∷ str ∷ []) m
        ≡ (0, (copy_mock_response msg_len str m).1)
  unfolding resp str_eq
  continue_lem name str m e = ground arith

  continue_all_lem :
      (name : List ℕ) (chunks : List (List ℕ)) (m : Mock)
      → IsValid m
      → All (All IsByte) chunks
      → m.response_len + length (joined chunks) < msg_len
      → let (failed, m') = continue_all name chunks m in
        (failed ≡ 0) × (contents m' ≡ contents m ++ joined chunks) × (m'.resp_code ≡ m.resp_code)
  unfolding continue_all
  continue_all_lem name [] m v b h = (refl, sym (append-nil (contents m)), refl)
  continue_all_lem name (bs ∷ chunks) m v (b, c) h =
      let str = print_hex bs ++ b'-' ∷ [] in
      let total = length-append bs (joined chunks) in
      let step = copy-print_hex bs (b'-' ∷ []) m v b (inr refl) (omega (arith, total)) in
      let m' = (copy_mock_response msg_len str m).1 in
      let (none_failed, all_added, code) =
        continue_all_lem name chunks m' step.valid c (omega (arith, total, step.grown)) in
      rw (continue_lem name str m step.size) (
        omega (arith, none_failed),
        all_added ∙ rw (step.added, append_assoc),
        code ∙ step.same_code,
      )

  code-ne-dash :
      (code : List ℕ) → int_to_u8 (atoi code) / 32 ≡ 2 → str_eq code (b'-' ∷ b'c' ∷ []) ≡ false
  unfolding atoi
  code-ne-dash code h = elim (Bool-cases (str_eq code (b'-' ∷ b'c' ∷ []))) [
    | inl e ↦ absurd (omega (arith, rw (str_eq_sound code (b'-' ∷ b'c' ∷ []) e) at h))
    | inr e ↦ e
  ]

  abbrev coded : List ℕ → Mock → Mock
  coded code m = record m { resp_code = int_to_u8 (atoi code); response_len = 0 }

  first_lem :
      (name code str : List ℕ) (m : Mock) {n : ℕ}
      → int_to_u8 (atoi code) / 32 ≡ 2
      → (copy_mock_response msg_len str (coded code m)).0 ≡ some n
      → resp msg_len (name ∷ code ∷ str ∷ []) m
        ≡ (0, (copy_mock_response msg_len str (coded code m)).1)
  unfolding resp
  first_lem name code str m h e = ground (arith, code-ne-dash code h)

  -- A response of class 2 that is given in chunks of hex digits, the first by `resp <code> <digits>`
  -- and the others by `resp -c <digits>-`, is the bytes of all chunks in order, under that code, and
  -- no command fails, if the bytes together are fewer than the buffer holds.
  pub resp_chunks :
      (name code bs : List ℕ) (chunks : List (List ℕ)) (m : Mock)
      → IsValid m
      → int_to_u8 (atoi code) / 32 ≡ 2
      → All IsByte bs
      → All (All IsByte) chunks
      → length (bs ++ joined chunks) < msg_len
      → let (status, m1) = resp msg_len (name ∷ code ∷ print_hex bs ∷ []) m in
        let (failed, m2) = continue_all name chunks m1 in
        (status ≡ 0)
        × (failed ≡ 0)
        × (contents m2 ≡ bs ++ joined chunks)
        × (m2.resp_code ≡ int_to_u8 (atoi code))
  resp_chunks name code bs chunks m v cls b c h =
      let total = length-append bs (joined chunks) in
      let m0 = coded code m in
      let step = copy-print_hex bs [] m0 (omega (arith, v)) b (inl refl) (omega (arith, total)) in
      let copied =
        subst (λ str. Copied bs m0 (copy_mock_response msg_len str m0)) (append-nil (print_hex bs))
          step in
      let m1 = (copy_mock_response msg_len (print_hex bs) m0).1 in
      let (none_failed, all_added, kept) =
        continue_all_lem name chunks m1 copied.valid c (omega (arith, total, copied.grown)) in
      rw (first_lem name code (print_hex bs) m cls copied.size)
        (refl, none_failed, all_added ∙ rw copied.added, kept ∙ copied.same_code)
