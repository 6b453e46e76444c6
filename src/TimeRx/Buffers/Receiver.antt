-- ===== src/TimeRx/Buffers/Receiver.antt =====
-- A receiver of RFC 4944 puts the datagram of a run together from its frames.
use riot_playground.Common.{
  ℕ, zero, suc, ◌+◌, ◌-◌, ◌*◌, ◌/◌, ◌%◌, ◌^◌, ◌≤◌, ◌<◌, ◌≡◌, refl, sym, ap, ◌∙◌, List, [], ◌∷◌,
  ◌++◌, ◌&&◌, Option, none, some, true, ◌==◌, ==_iff, if◌then◌else◌, length, take, drop, get_or,
  write_at, arith, take-drop, length-take, write_at-middle, drop-append, take-append, u8,
}
use mathlib.Core.List.{append_assoc, append-nil}
use riot_playground.TimeRx.{ipudp_len, mhr_len, frag_1_len, frag_n_len}
use riot_playground.TimeRx.Headers.{htons, with_disp}
use riot_playground.TimeRx.Headers.Decode.{
  decode_frag, decode_frag_1, decode_frag_n, kind_1, kind_n,
}

-- What the receiver makes of the buffer of a datagram with `size` bytes of payload, when it gets a
-- frame: `none` if the frame is a fragment of another datagram. A frame that is no fragment holds a
-- whole datagram. The compressed headers stand for the first 48 bytes of the datagram.
module _ (iphc size tag : ℕ) where
  -- `f` is what stands behind the MAC header, and `header` what is read of it.
  unfoldable pub accept : Option (ℕ × ℕ × ℕ) → List ℕ → List ℕ → Option (List ℕ)
  accept none f buffer = some (write_at buffer 0 (drop iphc f))
  accept (some (size', tag', offset)) f buffer =
      if (size' == size + ipudp_len) && (tag' == tag)
      then some (
          if get_or f 0 0 / 8 == 24
          then write_at buffer 0 (drop (frag_1_len + iphc) f)
          else write_at buffer (8 * offset - ipudp_len) (drop frag_n_len f))
      else none

  unfoldable pub receive_frame : List ℕ → List ℕ → Option (List ℕ)
  unfolding accept
  receive_frame frame buffer = let f = drop mhr_len frame in accept (decode_frag f) f buffer

  unfoldable pub receive_all : List (List ℕ) → List ℕ → Option (List ℕ)
  unfolding receive_frame
  receive_all [] buffer = some buffer
  receive_all (f ∷ fs) buffer = elim (receive_frame f buffer) [
    | none ↦ none
    | some buffer' ↦ receive_all fs buffer'
  ]

  -- What stands behind the header of a fragment, if there is one.
  unfoldable pub behind_frag : Option (ℕ × ℕ × ℕ) → List ℕ → List ℕ
  behind_frag none f = f
  behind_frag (some header) f = drop frag_1_len f

  -- The compressed headers that the first frame has, with the checksum at their end.
  unfoldable pub headers_of : List (List ℕ) → List ℕ
  unfolding behind_frag
  headers_of [] = []
  headers_of (frame ∷ fs) = let f = drop mhr_len frame in take iphc (behind_frag (decode_frag f) f)

  pub receive_all-cons :
      (f : List ℕ) (fs : List (List ℕ)) (buffer buffer' : List ℕ)
      → receive_frame f buffer ≡ some buffer'
      → receive_all (f ∷ fs) buffer ≡ receive_all fs buffer'
  unfolding receive_all
  receive_all-cons f fs buffer buffer' e = rw (receive_all, e) refl

  -- The header of the frame's slot is found behind the MAC header.
  behind_mhr :
      (mhr disp t tail data' : List ℕ)
      → length mhr ≡ 23
      → drop 23 (((mhr ++ disp) ++ (t ++ tail)) ++ data') ≡ disp ++ (t ++ (tail ++ data'))
  behind_mhr mhr disp t tail data' h =
      ap (drop 23) (
        append_assoc (mhr ++ disp) (t ++ tail) data'
        ∙ append_assoc mhr disp ((t ++ tail) ++ data')
        ∙ ap (λ bs. mhr ++ (disp ++ bs)) (append_assoc t tail data'))
      ∙ drop-append mhr (disp ++ (t ++ (tail ++ data'))) 23 (omega (arith, h))

  module _ (id : ℕ) (small : size + 48 < 2048) (same : tag ≡ id % 2 ^ 16) where
    accept-first :
        (compressed data' buffer : List ℕ)
        → length compressed ≡ iphc
        → accept
            (some (size + 48, id % 2 ^ 16, 0))
            (with_disp 0xc0 (u8 ((size + 48) / 256))
              ∷ u8 (size + 48)
              ∷ (htons id ++ (compressed ++ data')))
            buffer
          ≡ some (write_at buffer 0 data')
    unfolding accept
    accept-first compressed data' buffer len =
        let kind = kind_1 (u8 ((size + 48) / 256)) (omega arith) in
        let right_size : (size + 48 == size + 48) ≡ true = (==_iff _ _).1 refl in
        let right_tag : (id % 2 ^ 16 == tag) ≡ true = (==_iff _ _).1 (sym same) in
        let b = with_disp 0xc0 (u8 ((size + 48) / 256)) in
        let behind : drop (4 + iphc) (b ∷ u8 (size + 48) ∷ (htons id ++ (compressed ++ data')))
            ≡ data' =
          drop-append (b ∷ u8 (size + 48) ∷ (htons id ++ compressed)) data' (4 + iphc)
            (omega (arith, len)) in
        rw (kind, right_size, right_tag, behind) refl

    accept-next :
        (offset : ℕ) (data' buffer : List ℕ)
        → accept
            (some (size + 48, id % 2 ^ 16, offset))
            (with_disp 0xe0 (u8 ((size + 48) / 256))
              ∷ u8 (size + 48)
              ∷ (htons id ++ offset ∷ data'))
            buffer
          ≡ some (write_at buffer (8 * offset - 48) data')
    unfolding accept
    accept-next offset data' buffer =
        let kind = kind_n (u8 ((size + 48) / 256)) (omega arith) in
        let right_size : (size + 48 == size + 48) ≡ true = (==_iff _ _).1 refl in
        let right_tag : (id % 2 ^ 16 == tag) ≡ true = (==_iff _ _).1 (sym same) in
        rw (kind, right_size, right_tag) refl

    -- A first fragment.
    pub receive-first :
        (mhr compressed data' buffer : List ℕ)
        → length mhr ≡ 23
        → length compressed ≡ iphc
        → receive_frame
            (((mhr ++ with_disp 0xc0 (u8 ((size + 48) / 256)) ∷ u8 (size + 48) ∷ [])
                ++ (htons id ++ compressed))
              ++ data')
            buffer
          ≡ some (write_at buffer 0 data')
    unfolding receive_frame
    receive-first mhr compressed data' buffer h len =
        let disp = with_disp 0xc0 (u8 ((size + 48) / 256)) ∷ u8 (size + 48) ∷ [] in
        ap (λ f. accept (decode_frag f) f buffer)
          (behind_mhr mhr disp (htons id) compressed data' h)
        ∙ ap (λ d. accept d (disp ++ (htons id ++ (compressed ++ data'))) buffer)
            (decode_frag_1 (size + 48) id (compressed ++ data') small)
        ∙ accept-first compressed data' buffer len

    pub headers_of-first :
        (mhr compressed data' : List ℕ) (fs : List (List ℕ))
        → length mhr ≡ 23
        → length compressed ≡ iphc
        → headers_of (
            (((mhr ++ with_disp 0xc0 (u8 ((size + 48) / 256)) ∷ u8 (size + 48) ∷ [])
                ++ (htons id ++ compressed))
              ++ data')
            ∷ fs)
          ≡ compressed
    unfolding headers_of behind_frag
    headers_of-first mhr compressed data' fs h len =
        let disp = with_disp 0xc0 (u8 ((size + 48) / 256)) ∷ u8 (size + 48) ∷ [] in
        let frag = decode_frag_1 (size + 48) id (compressed ++ data') small in
        let f = disp ++ (htons id ++ (compressed ++ data')) in
        ap (λ g. take iphc (behind_frag (decode_frag g) g))
          (behind_mhr mhr disp (htons id) compressed data' h)
        ∙ ap (λ d. take iphc (behind_frag d f)) frag
        ∙ take-append compressed data' iphc (omega (arith, len))

    -- A later one.
    pub receive-next :
        (mhr data' buffer : List ℕ) (offset : ℕ)
        → length mhr ≡ 23
        → receive_frame
            (((mhr ++ with_disp 0xe0 (u8 ((size + 48) / 256)) ∷ u8 (size + 48) ∷ [])
                ++ (htons id ++ offset ∷ []))
              ++ data')
            buffer
          ≡ some (write_at buffer (8 * offset - 48) data')
    unfolding receive_frame
    receive-next mhr data' buffer offset h =
        let disp = with_disp 0xe0 (u8 ((size + 48) / 256)) ∷ u8 (size + 48) ∷ [] in
        ap (λ f. accept (decode_frag f) f buffer)
          (behind_mhr mhr disp (htons id) (offset ∷ []) data' h)
        ∙ ap (λ d. accept d (disp ++ (htons id ++ offset ∷ data')) buffer)
            (decode_frag_n (size + 48) id offset data' small)
        ∙ accept-next offset data' buffer

-- The part of the datagram that is there already, and the next piece.
write_at-piece :
    (done piece rest : List ℕ) (n : ℕ)
    → n ≡ length done
    → length piece ≤ length rest
    → write_at (done ++ rest) n piece ≡ (done ++ piece) ++ drop (length piece) rest
write_at-piece done piece rest n e fits =
    let m = length piece in
    ap (λ bs. write_at (done ++ bs) n piece) (sym (take-drop m rest))
    ∙ write_at-middle done (take m rest) (drop m rest) piece n e (sym (length-take m rest fits))
    ∙ sym (append_assoc done piece (drop m rest))

write_at-nothing : (xs : List ℕ) (n : ℕ) → write_at xs n [] ≡ xs
write_at-nothing [] n = refl
write_at-nothing (x ∷ xs) zero = refl
write_at-nothing (x ∷ xs) (suc n) = ap (λ t. x ∷ t) (write_at-nothing xs n)

-- An empty piece may go anywhere.
pub placed_piece :
    (done piece rest : List ℕ) (n : ℕ)
    → (0 < length piece → n ≡ length done)
    → length piece ≤ length rest
    → write_at (done ++ rest) n piece ≡ (done ++ piece) ++ drop (length piece) rest
placed_piece done [] rest n e fits =
    write_at-nothing (done ++ rest) n ∙ ap (λ d. d ++ rest) (sym (append-nil done))
placed_piece done (b ∷ piece) rest n e fits =
    write_at-piece done (b ∷ piece) rest n (e (omega arith)) fits

-- The MAC header comes first.
pub take_mhr :
    (mhr disp more data' : List ℕ)
    → length mhr ≡ 23
    → take 23 (((mhr ++ disp) ++ more) ++ data') ≡ mhr
take_mhr mhr disp more data' h =
    ap (take 23) (append_assoc (mhr ++ disp) more data' ∙ append_assoc mhr disp (more ++ data'))
    ∙ take-append mhr (disp ++ (more ++ data')) 23 (omega (arith, h))
