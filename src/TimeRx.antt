-- ===== src/TimeRx.antt =====
-- stack_comparison/time_rx/gnrc/exp.c, without MODULE_LWIP: how a UDP datagram is cut into 6LoWPAN
-- fragments, and its compressed ports. A frame is modelled by the number of bytes before its
-- data, by its data, and by the offset in its header; the bytes of the headers otherwise are not.
pub mod Buffers
pub mod Delivery
pub mod Experiment
pub mod Fragments
pub mod Headers
pub mod Lwip
pub mod Ports
pub mod Reset
pub mod Setup
mod Tests
use Prim.Native.Nat.{min}
use riot_playground.Common.{
  ℕ, zero, suc, ◌+◌, ◌-◌, ◌*◌, ◌/◌, ◌%◌, List, [], ◌∷◌, ◌++◌, Bool, true, false, ◌&&◌, ◌||◌, leb,
  ltb, ◌==◌, if◌then◌else◌, u8, length, take, drop,
}

abbrev pub max_frame_size : ℕ
max_frame_size = 125

abbrev pub mhr_len : ℕ
mhr_len = 23

-- The sizes of the two fragment headers of RFC 4944, and of an IPv6 and a UDP header.
abbrev pub frag_1_len : ℕ
frag_1_len = 4

abbrev pub frag_n_len : ℕ
frag_n_len = 5

abbrev pub ipudp_len : ℕ
ipudp_len = 48

abbrev pub max_fragments : ℕ
max_fragments = 18

-- IPHC_LEN, for ports of 16 bits.
unfoldable pub iphc_len : ℕ → ℕ → ℕ
iphc_len src_port dst_port =
    if dst_port / 16 == 0xf0b && src_port / 16 == 0xf0b
    then 6
    else if dst_port / 256 == 0xf0 || src_port / 256 == 0xf0
    then 8
    else 9

-- `buf[2]` and the ports after it, as `_init_iphc` writes them.
unfoldable pub nhc_ports : ℕ → ℕ → List ℕ
nhc_ports src_port dst_port =
    if dst_port / 16 == 0xf0b && src_port / 16 == 0xf0b
    then 0xf3 ∷ (src_port % 16 * 16 + dst_port % 16) ∷ []
    else if dst_port / 256 == 0xf0
    then 0xf1 ∷ src_port / 256 ∷ src_port % 256 ∷ dst_port % 256 ∷ []
    else if src_port / 256 == 0xf0
    then 0xf2 ∷ src_port % 256 ∷ dst_port / 256 ∷ dst_port % 256 ∷ []
    else 0xf0 ∷ src_port / 256 ∷ src_port % 256 ∷ dst_port / 256 ∷ dst_port % 256 ∷ []

-- `head` bytes of headers stand before the data; `offset` is the field of the header, in units of
-- eight bytes.
pub record Frag : Type 0 where
  pub head : ℕ
  pub offset : ℕ
  pub body : List ℕ

-- `frag_buf_len[i]`
abbrev pub frag_len : Frag → ℕ
frag_len f = f.head + length f.body

-- `(n >> 3) << 3`
abbrev pub whole_units : ℕ → ℕ
whole_units n = n / 8 * 8

-- The loop of `prepare_sixlowpan` for `n` more fragments, the first of them at `fragn_offset`.
unfoldable pub prepare_frags : ℕ → ℕ → List Frag
prepare_frags zero fragn_offset = []
prepare_frags (suc n) fragn_offset =
    record { head = mhr_len + frag_n_len; offset = u8 (fragn_offset / 8); body = [] }
    ∷ prepare_frags n (fragn_offset + whole_units (max_frame_size - mhr_len - frag_n_len))

-- IPHC_LEN
module _ (iphc : ℕ) where
  abbrev pub is_fragmented : ℕ → Bool
  is_fragmented payload_size = ltb (max_frame_size - mhr_len - iphc) payload_size

  -- Whether the datagram is fragmented, and the frames with their headers; without fragments, the
  -- first frame alone.
  unfoldable pub prepare_sixlowpan : ℕ → Bool × List Frag
  unfolding prepare_frags
  prepare_sixlowpan payload_size =
      let fragn_offset = whole_units (max_frame_size - mhr_len - frag_1_len - iphc + ipudp_len) in
      if is_fragmented payload_size
      then (
        true,
        record { head = mhr_len + frag_1_len + iphc; offset = 0; body = [] }
            ∷ prepare_frags (max_fragments - 1) fragn_offset,
      )
      else (false, record { head = mhr_len + iphc; offset = 0; body = [] } ∷ [])

-- The loop of `exp_run` over the fragments, where `rest` is what `uncomp_buffer` holds from
-- `offset` on: how many fragments are used, and the frames. An unused frame gets length 0.
unfoldable pub fill : List ℕ → List Frag → ℕ × List Frag
fill rest [] = (0, [])
fill rest (f ∷ fs) =
    let max_len = min (whole_units (max_frame_size - frag_len f)) (length rest) in
    let (used, others) = fill (drop max_len rest) fs in
    if length rest == 0
    then (used, record f { head = 0; body = [] } ∷ others)
    else (suc used, record f { body = f.body ++ take max_len rest } ∷ others)

-- The frame of a datagram that is not fragmented.
unfoldable pub fill_single : List ℕ → List Frag → ℕ × List Frag
fill_single bytes [] = (1, [])
fill_single bytes (f ∷ fs) = (1, record f { body = f.body ++ bytes } ∷ fs)

-- The frames of a run of `exp_run`, for the payload `bytes`.
unfoldable pub frames : ℕ → List ℕ → ℕ × List Frag
unfolding prepare_sixlowpan fill fill_single
frames iphc bytes =
    let (fragmented, fs) = prepare_sixlowpan iphc (length bytes) in
    if fragmented then fill bytes fs else fill_single bytes fs

-- The fragments after the first.
unfoldable pub reset_others : List Frag → List Frag
reset_others [] = []
reset_others (f ∷ fs) = record f { head = mhr_len + frag_n_len; body = [] } ∷ reset_others fs

unfoldable pub reset_frag_buf : ℕ → ℕ → List Frag → List Frag
unfolding reset_others
reset_frag_buf iphc payload_size [] = []
reset_frag_buf iphc payload_size (f ∷ fs) =
    if is_fragmented iphc payload_size
    then record f { head = mhr_len + iphc + frag_1_len; body = [] } ∷ reset_others fs
    else record f { head = mhr_len + iphc; body = [] } ∷ fs
