-- ===== src/TimeTx/Window.antt =====
-- Each packet is recognised when it reaches the device, and timed from its own start.
use riot_playground.Common.{
  ℕ, zero, suc, ◌+◌, ◌-◌, ◌*◌, ◌%◌, ◌≤◌, ◌<◌, ◌≡◌, refl, sym, ap, ◌∙◌, List, [], ◌∷◌, ◌++◌, some,
  u8, u32, arith, length, get_or, take, drop, replicate, write_at, length-append, length-replicate,
  take-write_at, length-write_at, ◌==◌, ltb, false, get_or-append_left, get_or-set_ne,
  get_or-set_self, length-set, get_or-append_right, drop-append, get_or-replicate_lt,
}
use mathlib.Core.List.{append_assoc}
use riot_playground.TimeTx.{
  max_payload, honeyguide, u16_bytes, Experiment, fill_payload, send_packet, run_ids, last_part,
  netdev2_send, total_len,
}

-- A packet of the experiment.
abbrev pub packet : ℕ → ℕ → List ℕ
packet payload_size id =
    (replicate (payload_size - 4) (u8 id) ++ u16_bytes payload_size) ++ honeyguide

-- What is sent is the packet, whatever the buffer held.
pub take-fill_payload :
    (payload_size id : ℕ) (buffer : List ℕ)
    → 5 ≤ payload_size
    → payload_size ≤ length buffer
    → take payload_size (fill_payload payload_size id buffer) ≡ packet payload_size id
unfolding fill_payload
take-fill_payload size id buffer least most =
    let fill = replicate (size - 4) (u8 id) in
    let fill_len = length-replicate (size - 4) (u8 id) in
    let b1 = write_at buffer 0 fill in
    let b2 = write_at b1 (size - 4) (u16_bytes size) in
    let len1 = length-write_at buffer 0 fill in
    let len2 = length-write_at b1 (size - 4) (u16_bytes size) in
    let t1 : take (size - 4) b1 ≡ fill =
      take-write_at buffer 0 (size - 4) fill (omega (arith, fill_len)) (omega arith) in
    let t2 =
      take-write_at b1 (size - 4) (size - 2) (u16_bytes size) (omega arith) (omega (arith, len1)) in
    let t3 =
      take-write_at b2 (size - 2) size honeyguide (omega arith) (omega (arith, len1, len2)) in
    t3 ∙ ap (λ xs. xs ++ honeyguide) (t2 ∙ ap (λ xs. xs ++ u16_bytes size) t1)

length-packet : (size id : ℕ) → 5 ≤ size → length (packet size id) ≡ size
length-packet size id h =
    let fill = replicate (size - 4) (u8 id) in
    omega (
      arith,
      length-append {A = ℕ} (fill ++ u16_bytes size) honeyguide,
      length-append {A = ℕ} fill (u16_bytes size),
      length-replicate (size - 4) (u8 id),
    )

last_part-append : (headers : List (List ℕ)) (p : List ℕ) → last_part (headers ++ p ∷ []) ≡ p
last_part-append [] p = refl
last_part-append (h ∷ []) p = refl
last_part-append (h ∷ h' ∷ hs) p = last_part-append (h' ∷ hs) p

-- What the callback reads of a packet.
module _ (size id : ℕ) (least : 5 ≤ size) where
  fill : List ℕ
  fill = replicate (size - 4) (u8 id)

  length-fill : length fill ≡ size - 4
  unfolding fill
  length-fill = length-replicate (size - 4) (u8 id)

  hg_read : drop (size - 2) (packet size id) ≡ honeyguide
  unfolding fill
  hg_read =
      drop-append (fill ++ u16_bytes size) honeyguide (size - 2)
        (omega (arith, length-fill, length-append fill (u16_bytes size)))

  tail_read :
      (k i : ℕ)
      → k ≡ size - 4 + i
      → i < 2
      → get_or (packet size id) k 0 ≡ get_or (u16_bytes size) i 0
  unfolding fill
  tail_read k i e h =
      get_or-append_left (fill ++ u16_bytes size) honeyguide k 0
        (omega (arith, length-fill, length-append fill (u16_bytes size)))
      ∙ get_or-append_right fill (u16_bytes size) k i 0 (omega (arith, length-fill))

  id_read : get_or (packet size id) (size - 4 - 1) 0 ≡ u8 id
  unfolding fill
  id_read =
      get_or-append_left (fill ++ u16_bytes size) honeyguide (size - 4 - 1) 0
        (omega (arith, length-fill, length-append fill (u16_bytes size)))
      ∙ get_or-append_left fill (u16_bytes size) (size - 4 - 1) 0 (omega (arith, length-fill))
      ∙ get_or-replicate_lt (size - 4) (size - 4 - 1) (u8 id) 0 (omega arith)

-- The callback on a packet behind any headers.
netdev2_send-packet :
    (size id before stop : ℕ) (headers : List (List ℕ)) (e : Experiment)
    → 5 ≤ size
    → size < 65536
    → netdev2_send before stop (headers ++ packet size id ∷ []) e ≡ (
      2 * total_len (headers ++ packet size id ∷ []),
      some (size, u32 (stop + 4294967296 - get_or e.timer_window (id % 16) 0)),
    )
unfolding netdev2_send
netdev2_send-packet size id before stop headers e least most =
    let shown : get_or (packet size id) (size - 4) 0
          + get_or (packet size id) (size - 4 + 1) 0 * 256
        ≡ size =
      omega (
        arith,
        tail_read size id least (size - 4) 0 (omega arith) (omega arith),
        tail_read size id least (size - 4 + 1) 1 (omega arith) (omega arith),
      ) in
    let slot : u8 id % 16 ≡ id % 16 = omega arith in
    let twice : (n : ℕ) → n + n ≡ 2 * n = λ n. omega arith in
    let more : (size - 4 == 0) ≡ false = ground arith in
    let long : ltb size 4 ≡ false = ground arith in
    rw (
      last_part-append headers (packet size id),
      length-packet size id least,
      hg_read size id least,
      shown,
      more,
      long,
      id_read size id least,
      slot,
      twice,
    )

-- The arrays keep their sizes.
abbrev pub HasSizes : Experiment → Type 0
HasSizes e = (length e.payload_buffer ≡ max_payload) × (length e.timer_window ≡ 16)

pub send_packet-HasSizes :
    (size id now : ℕ) (e : Experiment) → HasSizes e → HasSizes (send_packet size id now e)
unfolding send_packet fill_payload
send_packet-HasSizes size id now e (hb, hw) =
    let fill = replicate (size - 4) (u8 id) in
    let b1 = write_at e.payload_buffer 0 fill in
    let b2 = write_at b1 (size - 4) (u16_bytes size) in
    (
      length-write_at b2 (size - 2) honeyguide
          ∙ length-write_at b1 (size - 4) (u16_bytes size)
          ∙ length-write_at e.payload_buffer 0 fill
          ∙ hb,
      length-set e.timer_window (id % 16) now ∙ hw,
    )

sent-send_packet :
    (size id now : ℕ) (e : Experiment)
    → 5 ≤ size
    → size ≤ max_payload
    → HasSizes e
    → (send_packet size id now e).sent ≡ packet size id ∷ e.sent
unfolding send_packet
sent-send_packet size id now e least most (hb, hw) =
    rw (take-fill_payload size id e.payload_buffer least (omega (arith, hb))) refl

-- The packets of a loop, the newest first.
unfoldable pub packets : ℕ → ℕ → ℕ → List (List ℕ)
packets size zero id = []
packets size (suc n) id = packets size n (id + 1) ++ packet size id ∷ []

pub sent-run_ids :
    (now : ℕ → ℕ) (size n id : ℕ) (e : Experiment)
    → 5 ≤ size
    → size ≤ max_payload
    → HasSizes e
    → (run_ids now size n id e).sent ≡ packets size n id ++ e.sent
unfolding run_ids packets
sent-run_ids now size zero id e least most h = refl
sent-run_ids now size (suc n) id e least most h =
    let e' = send_packet size id (now id) e in
    sent-run_ids now size n (id + 1) e' least most (send_packet-HasSizes size id (now id) e h)
    ∙ ap (λ ps. packets size n (id + 1) ++ ps) (sent-send_packet size id (now id) e least most h)
    ∙ sym (append_assoc (packets size n (id + 1)) (packet size id ∷ []) e.sent)

-- The time of packet `first` is kept for as long as no packet takes its slot.
window-run_ids :
    (now : ℕ → ℕ) (size n id first : ℕ) (e : Experiment)
    → first < id
    → id + n ≤ first + 16
    → get_or (run_ids now size n id e).timer_window (first % 16) 0
      ≡ get_or e.timer_window (first % 16) 0
unfolding run_ids send_packet
window-run_ids now size zero id first e below near = refl
window-run_ids now size (suc n) id first e below near =
    window-run_ids now size n (id + 1) first (send_packet size id (now id) e) (omega arith)
      (omega arith)
    ∙ get_or-set_ne e.timer_window (id % 16) (first % 16) (now id) 0 (λ same. omega arith)

-- A payload of 5 to 1232 bytes: the loop sends the packets of its numbers, one for each, and when
-- the packet that it sent first, behind any headers, reaches the device before a sixteenth packet
-- has been sent after it, the callback prints the size of the payload and the time since that
-- packet was sent (modulo 2 ^ 32). It returns twice the bytes of the vector.
pub netdev2_send-run_ids :
    (now : ℕ → ℕ) (size id k before stop : ℕ) (headers : List (List ℕ)) (e : Experiment)
    → 5 ≤ size
    → size ≤ max_payload
    → HasSizes e
    → k < 16
    → let e' = run_ids now size (suc k) id e in
      let vector = headers ++ packet size id ∷ [] in
      (e'.sent ≡ packets size (suc k) id ++ e.sent)
      × (netdev2_send before stop vector e'
          ≡ (2 * total_len vector, some (size, u32 (stop + 4294967296 - now id))))
unfolding run_ids
netdev2_send-run_ids now size id k before stop headers e least most h near =
    let first = send_packet size id (now id) e in
    let start : get_or first.timer_window (id % 16) 0 ≡ now id =
      unfold send_packet in
      get_or-set_self e.timer_window (id % 16) (now id) 0 (omega (arith, h.1)) in
    let kept = window-run_ids now size k (id + 1) id first (omega arith) (omega arith) ∙ start in
    (
      sent-run_ids now size (suc k) id e least most h,
      rw kept at (
          netdev2_send-packet size id before stop headers (run_ids now size (suc k) id e) least
            (omega arith)),
    )
