-- ===== src/TimeRx/Buffers/Single.antt =====
-- The headers of a single frame.
use riot_playground.Common.{
  ℕ, ◌+◌, ◌-◌, ◌^◌, ◌≤◌, ◌<◌, ◌≡◌, refl, sym, ap, ◌∙◌, List, [], ◌∷◌, ◌++◌, none, some, length,
  take, drop, write_at, arith, length-append, length-take, length-drop, length-write_at, take-drop,
  take-append, drop-append, write_at-middle,
}
use mathlib.Core.List.{append_assoc, append-nil}
use riot_playground.TimeRx.{iphc_len}
use riot_playground.TimeRx.Headers.{init_iphc}
use riot_playground.TimeRx.Headers.Decode.{decode_frag}
use riot_playground.TimeRx.Buffers.{Buffer, prepare_single, store_chksum}
use riot_playground.TimeRx.Buffers.Preparing.{compressed, length-compressed}
use riot_playground.TimeRx.Buffers.Mhrs.{HasMhr, write_inside}
use riot_playground.TimeRx.Buffers.Receiver.{
  accept, behind_frag, headers_of, receive_frame, receive_all, receive_all-cons, placed_piece,
}
use riot_playground.TimeRx.Buffers.Promise.{rfc}

-- A frame that starts with the compressed headers is no fragment.
decode_frag-init_iphc :
    (src_port dst_port : ℕ) (rest : List ℕ)
    → decode_frag (init_iphc rfc src_port dst_port ++ rest) ≡ none
unfolding decode_frag init_iphc
decode_frag-init_iphc src_port dst_port rest = refl

module _ (src_port dst_port : ℕ) (hs : src_port < 2 ^ 16) (hd : dst_port < 2 ^ 16) where
  abbrev iphc : List ℕ
  iphc = compressed rfc src_port dst_port hs hd

  -- A buffer of 125 bytes with the headers of a single frame, the last two bytes of them `two`.
  pub record IsSingle (mhr two : List ℕ) (f : Buffer) : Type 0 where
    pub rest : List ℕ
    pub split : f.bytes ≡ (mhr ++ iphc) ++ (two ++ rest)
    pub size : length f.bytes ≡ 125
    pub len : f.len ≡ 23 + iphc_len src_port dst_port

  pub prepare_single-IsSingle :
      (mhr : List ℕ) (f : Buffer)
      → iphc_len src_port dst_port ≤ 9
      → HasMhr mhr f
      → (two : List ℕ) × (length two ≡ 2)
        × IsSingle mhr two (prepare_single rfc src_port dst_port f)
  unfolding prepare_single
  prepare_single-IsSingle mhr f most h =
      let left = drop (length iphc) h.rest in
      let len = length-compressed rfc src_port dst_port hs hd in
      let rest_len : length h.rest ≡ 102 =
        omega (arith, h.size, h.mhr_len, ap length h.split, length-append mhr h.rest) in
      let left_len = length-drop (length iphc) h.rest in
      let two_len = length-take 2 left (omega (arith, left_len, rest_len, len)) in
      (
        take 2 left,
        two_len,
        record {
          rest = drop 2 left;
          split =
              ap (λ bs. write_at bs 23 iphc) h.split
              ∙ write_inside mhr h.rest iphc 0 23 (omega (arith, h.mhr_len))
                  (omega (arith, rest_len, len))
              ∙ sym (append_assoc mhr iphc left)
              ∙ ap (λ bs. (mhr ++ iphc) ++ bs) (sym (take-drop 2 left));
          size = length-write_at f.bytes 23 iphc ∙ h.size;
          len = refl;
        },
      )

  module _ (mhr : List ℕ) (mhr_len : length mhr ≡ 23) where
    pub store_chksum-IsSingle :
        (two checksum : List ℕ) (f : Buffer)
        → length two ≡ 2
        → length checksum ≡ 2
        → IsSingle mhr two f
        → IsSingle mhr checksum (store_chksum rfc src_port dst_port checksum f)
    unfolding store_chksum
    store_chksum-IsSingle two checksum f h2 hc v =
        let k = iphc_len src_port dst_port in
        let place = f.len - k + (k - 2) in
        let len = length-compressed rfc src_port dst_port hs hd in
        let at : place ≡ length (mhr ++ iphc) =
          omega (arith, v.len, len, mhr_len, length-append mhr iphc) in
        record {
          rest = v.rest;
          split =
              ap (λ bs. write_at bs place checksum) v.split
              ∙ write_at-middle (mhr ++ iphc) two v.rest checksum place at (omega (arith, h2, hc));
          size = length-write_at f.bytes place checksum ∙ v.size;
          len = v.len;
        }

    -- The data goes behind the headers.
    pub stored :
        (checksum bytes : List ℕ) (f : Buffer)
        → length checksum ≡ 2
        → length bytes + iphc_len src_port dst_port ≤ 102
        → (v : IsSingle mhr checksum f)
        → write_at f.bytes f.len bytes
          ≡ ((mhr ++ (iphc ++ checksum)) ++ bytes) ++ drop (length bytes) v.rest
    stored checksum bytes f hc fits v =
        let front = mhr ++ (iphc ++ checksum) in
        let len = length-compressed rfc src_port dst_port hs hd in
        let front_len = length-append mhr (iphc ++ checksum) in
        let tail_len = length-append iphc checksum in
        let whole : f.bytes ≡ front ++ v.rest =
          v.split
          ∙ sym (append_assoc (mhr ++ iphc) checksum v.rest)
          ∙ ap (λ bs. bs ++ v.rest) (append_assoc mhr iphc checksum) in
        let room : length bytes ≤ length v.rest = omega (
          arith,
          v.size,
          ap length whole,
          length-append front v.rest,
          front_len,
          tail_len,
          len,
          mhr_len,
          hc,
        ) in
        ap (λ bs. write_at bs f.len bytes) whole
        ∙ placed_piece front bytes v.rest f.len
            (λ some_here. omega (arith, v.len, len, hc, mhr_len, front_len, tail_len)) room

    behind_mhr :
        (checksum bytes : List ℕ)
        → drop 23 ((mhr ++ (iphc ++ checksum)) ++ bytes) ≡ iphc ++ (checksum ++ bytes)
    behind_mhr checksum bytes =
        ap (drop 23) (append_assoc mhr (iphc ++ checksum) bytes)
        ∙ drop-append mhr ((iphc ++ checksum) ++ bytes) 23 (omega (arith, mhr_len))
        ∙ append_assoc iphc checksum bytes

    pub own_mhr : (checksum bytes : List ℕ) → take 23 ((mhr ++ (iphc ++ checksum)) ++ bytes) ≡ mhr
    own_mhr checksum bytes =
        ap (take 23) (append_assoc mhr (iphc ++ checksum) bytes)
        ∙ take-append mhr ((iphc ++ checksum) ++ bytes) 23 (omega (arith, mhr_len))

    pub own_headers :
        (checksum bytes : List ℕ) (tag size : ℕ)
        → length checksum ≡ 2
        → headers_of
            (iphc_len src_port dst_port)
            size
            tag
            (((mhr ++ (iphc ++ checksum)) ++ bytes) ∷ [])
          ≡ iphc ++ checksum
    unfolding headers_of behind_frag
    own_headers checksum bytes tag size hc =
        let k = iphc_len src_port dst_port in
        let len = length-compressed rfc src_port dst_port hs hd in
        ap (λ f. take k (behind_frag k size tag (decode_frag f) f)) (behind_mhr checksum bytes)
        ∙ ap (λ d. take k (behind_frag k size tag d (iphc ++ (checksum ++ bytes))))
            (decode_frag-init_iphc src_port dst_port (checksum ++ bytes))
        ∙ ap (take k) (sym (append_assoc iphc checksum bytes))
        ∙ take-append (iphc ++ checksum) bytes k
            (omega (arith, len, hc, length-append iphc checksum))

    -- What the receiver makes of it.
    pub received :
        (checksum bytes buffer : List ℕ) (tag : ℕ)
        → length checksum ≡ 2
        → length buffer ≡ length bytes
        → receive_all
            (iphc_len src_port dst_port)
            (length bytes)
            tag
            (((mhr ++ (iphc ++ checksum)) ++ bytes) ∷ [])
            buffer
          ≡ some bytes
    unfolding receive_all receive_frame accept
    received checksum bytes buffer tag hc room =
        let k = iphc_len src_port dst_port in
        let len = length-compressed rfc src_port dst_port hs hd in
        let tail_len = length-append iphc checksum in
        let behind = behind_mhr checksum bytes in
        let data' : drop k (iphc ++ (checksum ++ bytes)) ≡ bytes =
          ap (drop k) (sym (append_assoc iphc checksum bytes))
          ∙ drop-append (iphc ++ checksum) bytes k (omega (arith, len, hc, tail_len)) in
        let over = placed_piece [] bytes buffer 0 (λ some_here. refl) (omega (arith, room)) in
        let none_left : drop (length bytes) buffer ≡ [] = nothing_left buffer bytes room in
        let whole : write_at buffer 0 bytes ≡ bytes =
          over ∙ ap (λ bs. bytes ++ bs) none_left ∙ append-nil bytes in
        receive_all-cons k (length bytes) tag ((mhr ++ (iphc ++ checksum)) ++ bytes) [] buffer bytes
          (ap (λ f. accept k (length bytes) tag (decode_frag f) f buffer) behind
            ∙ ap (λ d. accept k (length bytes) tag d (iphc ++ (checksum ++ bytes)) buffer)
                (decode_frag-init_iphc src_port dst_port (checksum ++ bytes))
            ∙ ap (λ bs. some (write_at buffer 0 bs)) data'
            ∙ ap some whole)
      where
        nothing_left :
            (buffer bytes : List ℕ) → length buffer ≡ length bytes → drop (length bytes) buffer ≡ []
        nothing_left [] [] e = refl
        nothing_left [] (b ∷ bytes) e = refl
        nothing_left (b ∷ buffer) [] e = absurd (omega arith)
        nothing_left (b ∷ buffer) (b' ∷ bytes) e = nothing_left buffer bytes (omega arith)
