-- ===== src/TimeRx/Buffers/Slots.antt =====
-- A frame in its buffer: what stands before its data, and what the writes of a run do to it.
use riot_playground.Common.{
  ℕ, ◌+◌, ◌≤◌, ◌<◌, ◌≡◌, refl, sym, ap, ◌∙◌, List, ◌++◌, length, take, drop, write_at, arith,
  length-append, length-take, take-drop, write_at-middle, length-write_at, take-append,
}
use mathlib.Core.List.{append_assoc}
use riot_playground.TimeRx.Headers.{htons}
use riot_playground.TimeRx.Buffers.{Buffer, content}

-- The 25 bytes before the tag of a fragment, the bytes between the tag and the data, and the offset
-- of the fragment in units of eight bytes.
pub record Slot : Type 0 where
  pub front : List ℕ
  pub tail : List ℕ
  pub offset : ℕ

abbrev pub IsSlot : Slot → Type 0
IsSlot s = (length s.front ≡ 25) × (length s.tail < 98)

-- A buffer of 125 bytes has the bytes of the slot, with any tag, and data up to `len` at most.
pub record Stands (s : Slot) (f : Buffer) : Type 0 where
  pub tag : List ℕ
  pub rest : List ℕ
  pub split : f.bytes ≡ s.front ++ (tag ++ (s.tail ++ rest))
  pub tag_len : length tag ≡ 2
  pub size : length f.bytes ≡ 125
  pub len : f.len ≡ 27 + length s.tail

-- What a frame holds with a tag and some data.
abbrev pub filled : Slot → ℕ → List ℕ → List ℕ
filled s id data' = (s.front ++ (htons id ++ s.tail)) ++ data'

module _ (s : Slot) (id : ℕ) (slot : IsSlot s) where
  length-filled : (data' : List ℕ) → length (filled s id data') ≡ 27 + length s.tail + length data'
  length-filled data' = omega (
    arith,
    length-append (s.front ++ (htons id ++ s.tail)) data',
    length-append s.front (htons id ++ s.tail),
    length-append (htons id) s.tail,
    slot,
  )

  -- The tag is written in place.
  tagged : (f : Buffer) (v : Stands s f) → write_at f.bytes 25 (htons id) ≡ filled s id v.rest
  tagged f v =
      ap (λ bs. write_at bs 25 (htons id)) v.split
      ∙ write_at-middle s.front v.tag (s.tail ++ v.rest) (htons id) 25 (omega (arith, slot))
          (omega (arith, v.tag_len))
      ∙ ap (λ bs. s.front ++ bs) (sym (append_assoc (htons id) s.tail v.rest))
      ∙ sym (append_assoc s.front (htons id ++ s.tail) v.rest)

  length-rest : (f : Buffer) (v : Stands s f) → length v.rest + (27 + length s.tail) ≡ 125
  length-rest f v = omega (
    arith,
    ap length v.split,
    v.size,
    v.tag_len,
    slot,
    length-append s.front (v.tag ++ (s.tail ++ v.rest)),
    length-append v.tag (s.tail ++ v.rest),
    length-append s.tail v.rest,
  )

  -- The data behind it, too, over what stood there.
  stored :
      (f : Buffer) (v : Stands s f) (data' : List ℕ)
      → length data' + f.len ≤ 125
      → write_at (write_at f.bytes 25 (htons id)) f.len data'
        ≡ filled s id data' ++ drop (length data') v.rest
  stored f v data' fits =
      let m = length data' in
      let before = s.front ++ (htons id ++ s.tail) in
      let room : m ≤ length v.rest = omega (arith, length-rest f v, v.len) in
      let at_len : f.len ≡ length before =
        omega (arith, v.len, length-append s.front (htons id ++ s.tail), slot) in
      ap (λ bs. write_at bs f.len data') (tagged f v)
      ∙ ap (λ bs. write_at (before ++ bs) f.len data') (sym (take-drop m v.rest))
      ∙ write_at-middle before (take m v.rest) (drop m v.rest) data' f.len at_len
          (sym (length-take m v.rest room))
      ∙ sym (append_assoc before data' (drop m v.rest))

  -- What a frame that is used holds.
  pub content-stored :
      (f : Buffer) (v : Stands s f) (data' : List ℕ) (n : ℕ)
      → n ≡ length data'
      → n + f.len ≤ 125
      → content (record {
        bytes = write_at (write_at f.bytes 25 (htons id)) f.len data';
        len = f.len + n;
      })
        ≡ filled s id data'
  content-stored f v data' n e fits =
      ap (take (f.len + n)) (stored f v data' (omega arith))
      ∙ take-append (filled s id data') (drop (length data') v.rest) (f.len + n)
          (omega (arith, length-filled data', v.len))

  -- A frame that held data stands again when its length is reset.
  pub Stands-stored :
      (f : Buffer) (v : Stands s f) (data' : List ℕ) (len : ℕ)
      → length data' + f.len ≤ 125
      → len ≡ 27 + length s.tail
      → Stands s
          (record { bytes = write_at (write_at f.bytes 25 (htons id)) f.len data'; len = len })
  Stands-stored f v data' len fits e =
      let left = data' ++ drop (length data') v.rest in
      record {
        tag = htons id;
        rest = left;
        split =
            stored f v data' fits
            ∙ append_assoc (s.front ++ (htons id ++ s.tail)) data' (drop (length data') v.rest)
            ∙ append_assoc s.front (htons id ++ s.tail) left
            ∙ ap (λ bs. s.front ++ bs) (append_assoc (htons id) s.tail left);
        tag_len = refl;
        size =
            length-write_at (write_at f.bytes 25 (htons id)) f.len data'
            ∙ length-write_at f.bytes 25 (htons id)
            ∙ v.size;
        len = e;
      }

  -- So does one that was only tagged.
  pub Stands-tagged :
      (f : Buffer) (v : Stands s f) (len : ℕ)
      → len ≡ 27 + length s.tail
      → Stands s (record { bytes = write_at f.bytes 25 (htons id); len = len })
  Stands-tagged f v len e = record {
    tag = htons id;
    rest = v.rest;
    split =
        tagged f v
        ∙ append_assoc s.front (htons id ++ s.tail) v.rest
        ∙ ap (λ bs. s.front ++ bs) (append_assoc (htons id) s.tail v.rest);
    tag_len = refl;
    size = length-write_at f.bytes 25 (htons id) ∙ v.size;
    len = e;
  }
