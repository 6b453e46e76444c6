-- ===== src/TimeRx/Headers/Decode.antt =====
-- A reader of RFC 4944 and RFC 6282 finds in the headers what was put there.
use riot_playground.Common.{
  ℕ, ◌+◌, ◌*◌, ◌/◌, ◌%◌, ◌^◌, ◌<◌, ◌≡◌, refl, List, [], ◌∷◌, ◌++◌, Option, none, some, true, ◌==◌,
  ==_iff, if◌then◌else◌, u8, arith, zero, suc, ap, length-append, length, get_or, drop, write_at,
  holds_below, holds_below_sound,
}
use riot_playground.TimeRx.{iphc_len, nhc_ports}
use riot_playground.TimeRx.Ports.{decode_ports, decode_ports-nhc_ports}
use riot_playground.TimeRx.Headers.{
  Constants, htons, with_disp, init_frag1, init_fragn, set_tag, init_iphc, set_chksum,
}

-- The header of a fragment by RFC 4944, section 5.3: the size of the datagram, its tag, and the
-- offset in units of eight bytes, 0 for the first.
unfoldable pub decode_frag : List ℕ → Option (ℕ × ℕ × ℕ)
decode_frag header =
    let kind = get_or header 0 0 in
    let size = kind % 8 * 256 + get_or header 1 0 in
    let tag = get_or header 2 0 * 256 + get_or header 3 0 in
    if kind / 8 == 24
    then some (size, tag, 0)
    else if kind / 8 == 28
    then some (size, tag, get_or header 4 0)
    else none

disp_table : holds_below 8 (λ b. with_disp 0xc0 b == 0xc0 + b) ≡ true
unfolding holds_below
disp_table = refl

with_disp_1 : (b : ℕ) → b < 8 → with_disp 0xc0 b ≡ 0xc0 + b
with_disp_1 b h =
    (==_iff _ _).0 (holds_below_sound 8 (λ b'. with_disp 0xc0 b' == 0xc0 + b') b h disp_table)

disp_table_n : holds_below 8 (λ b. with_disp 0xe0 b == 0xe0 + b) ≡ true
unfolding holds_below
disp_table_n = refl

with_disp_n : (b : ℕ) → b < 8 → with_disp 0xe0 b ≡ 0xe0 + b
with_disp_n b h =
    (==_iff _ _).0 (holds_below_sound 8 (λ b'. with_disp 0xe0 b' == 0xe0 + b') b h disp_table_n)

-- The same with anything behind the header.
pub decode_frag_1 :
    (size id : ℕ) (rest : List ℕ)
    → size < 2048
    → decode_frag (with_disp 0xc0 (u8 (size / 256)) ∷ u8 size ∷ (htons id ++ rest))
      ≡ some (size, id % 2 ^ 16, 0)
unfolding decode_frag
decode_frag_1 size id rest small =
    let high : u8 (size / 256) < 8 = omega arith in
    rw (with_disp_1 (u8 (size / 256)) high) (ground arith)

pub decode_frag_n :
    (size id offset : ℕ) (rest : List ℕ)
    → size < 2048
    → decode_frag (with_disp 0xe0 (u8 (size / 256)) ∷ u8 size ∷ (htons id ++ offset ∷ rest))
      ≡ some (size, id % 2 ^ 16, offset)
unfolding decode_frag
decode_frag_n size id offset rest small =
    let high : u8 (size / 256) < 8 = omega arith in
    rw (with_disp_n (u8 (size / 256)) high) (ground arith)

-- The kind of a fragment.
pub kind_1 : (b : ℕ) → b < 8 → with_disp 0xc0 b / 8 ≡ 24
kind_1 b h = rw (with_disp_1 b h) (omega arith)

pub kind_n : (b : ℕ) → b < 8 → with_disp 0xe0 b / 8 ≡ 28
kind_n b h = rw (with_disp_n b h) (omega arith)

-- With the dispatches of RFC 4944, a reader of the header of either kind of fragment finds the size
-- of the datagram, the number of the run as its tag (modulo 2 ^ 16), and the offset in units of
-- eight bytes, for a datagram of less than 2048 bytes.
pub decode_frag-set_tag :
    (c : Constants) (size tag id offset : ℕ)
    → c.frag_1_disp ≡ 0xc0
    → c.frag_n_disp ≡ 0xe0
    → size < 2048
    → offset < 2048
    → (decode_frag (set_tag id (init_frag1 c size tag)) ≡ some (size, id % 2 ^ 16, 0))
      × (decode_frag (set_tag id (init_fragn c size tag offset))
          ≡ some (size, id % 2 ^ 16, offset / 8))
unfolding decode_frag set_tag init_frag1 init_fragn
decode_frag-set_tag c size tag id offset one more small near =
    let high : u8 (size / 256) < 8 = omega arith in
    (
      rw (one, with_disp_1 (u8 (size / 256)) high) (ground arith),
      rw (more, with_disp_n (u8 (size / 256)) high) (ground arith),
    )

module _ {ℓ} {A : Type ℓ} where
  write_at-end :
      (xs : List A) (n : ℕ) (a b x y : A)
      → n ≡ length xs
      → write_at (xs ++ a ∷ b ∷ []) n (x ∷ y ∷ []) ≡ xs ++ x ∷ y ∷ []
  write_at-end [] zero a b x y e = refl
  write_at-end [] (suc n) a b x y e = absurd (omega arith)
  write_at-end (z ∷ xs) zero a b x y e = absurd (omega arith)
  write_at-end (z ∷ xs) (suc n) a b x y e =
      ap (λ ys. z ∷ ys) (write_at-end xs n a b x y (omega arith))

  drop-front :
      (front : List A) (x y : A) (rest : List A)
      → drop (length front + 2) (front ++ x ∷ y ∷ rest) ≡ rest
  drop-front [] x y rest = refl
  drop-front (z ∷ front) x y rest =
      let next : suc (length front) + 2 ≡ suc (length front + 2) = omega arith in
      rw next (drop-front front x y rest)

-- The checksum goes to the two bytes behind the compressed ports, at the end of what stands in the
-- first frame, and nothing else there changes: neither the headers before the compressed ones
-- (`front`, with or without a fragment header), nor the ports, which a reader of RFC 6282 still finds.
pub set_chksum-init_iphc :
    (c : Constants) (src_port dst_port a b x y : ℕ) (front : List ℕ)
    → src_port < 2 ^ 16
    → dst_port < 2 ^ 16
    → let before = front ++ init_iphc c src_port dst_port in
      (set_chksum (iphc_len src_port dst_port) (x ∷ y ∷ []) (before ++ a ∷ b ∷ [])
        ≡ before ++ x ∷ y ∷ [])
      × (decode_ports (drop (length front + 2) before) ≡ some (src_port, dst_port))
unfolding set_chksum init_iphc
set_chksum-init_iphc c src_port dst_port a b x y front hs hd =
    let iphc = init_iphc c src_port dst_port in
    let (ports, len) = decode_ports-nhc_ports src_port dst_port hs hd in
    let all = length-append {A = ℕ} (front ++ iphc) (a ∷ b ∷ []) in
    let inner = length-append {A = ℕ} front iphc in
    (
      write_at-end (front ++ iphc) _ a b x y (omega (arith, all, inner, len)),
      rw (drop-front front _ _ (nhc_ports src_port dst_port)) ports,
    )
