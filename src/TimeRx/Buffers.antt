-- ===== src/TimeRx/Buffers.antt =====
-- stack_comparison/time_rx/gnrc/exp.c: the bytes of `frag_buf` and their lengths in `frag_buf_len`,
-- which every write of the experiment changes in place.
pub mod Filling
pub mod Headed
pub mod Loop
pub mod Mhrs
pub mod Preparing
pub mod Promise
pub mod Reassembly
pub mod Receiver
pub mod Runs
pub mod Single
pub mod SingleRuns
pub mod Slots
pub mod Storing
mod Tests
use Prim.Native.Nat.{min}
use riot_playground.Common.{
  ℕ, zero, suc, ◌+◌, ◌-◌, List, [], ◌∷◌, Bool, true, false, ◌==◌, if◌then◌else◌, length, take, drop,
  write_at,
}
use riot_playground.TimeRx.{
  max_frame_size, mhr_len, frag_1_len, frag_n_len, ipudp_len, iphc_len, is_fragmented, whole_units,
}
use riot_playground.TimeRx.Headers.{Constants, htons, init_frag1, init_fragn, init_iphc}

-- `frag_buf[i]` and `frag_buf_len[i]`.
pub record Buffer : Type 0 where
  pub bytes : List ℕ
  pub len : ℕ

-- The loop of `exp_run` over the frames; `rest` is what `uncomp_buffer` holds from `offset` on.
unfoldable pub fill_buffers : ℕ → List ℕ → List Buffer → ℕ × List Buffer
fill_buffers id rest [] = (0, [])
fill_buffers id rest (f ∷ fs) =
    let max_len = min (whole_units (max_frame_size - f.len)) (length rest) in
    let tagged = write_at f.bytes (mhr_len + 2) (htons id) in
    let (used, others) = fill_buffers id (drop max_len rest) fs in
    if length rest == 0 then (used, record { bytes = tagged; len = 0 } ∷ others) else (
      suc used,
      record { bytes = write_at tagged f.len (take max_len rest); len = f.len + max_len } ∷ others,
    )

-- The loop of `reset_frag_buf` over the frames after the first.
unfoldable pub reset_lens : List Buffer → List Buffer
reset_lens [] = []
reset_lens (f ∷ fs) = record f { len = mhr_len + frag_n_len } ∷ reset_lens fs

module _ (c : Constants) (src_port dst_port : ℕ) where
  abbrev pub iphc : ℕ
  iphc = iphc_len src_port dst_port

  -- The first of several frames.
  unfoldable pub prepare_first : ℕ → Buffer → Buffer
  prepare_first payload_size f =
      let compressed = write_at f.bytes (mhr_len + frag_1_len) (init_iphc c src_port dst_port) in
      record {
        bytes = write_at compressed mhr_len (init_frag1 c (payload_size + ipudp_len) 0);
        len = mhr_len + frag_1_len + iphc;
      }

  unfoldable pub prepare_next : ℕ → ℕ → Buffer → Buffer
  prepare_next payload_size fragn_offset f =
      let headed =
        write_at f.bytes mhr_len (init_fragn c (payload_size + ipudp_len) 0 fragn_offset) in
      record {
        bytes = write_at headed (mhr_len + frag_n_len) (init_iphc c src_port dst_port);
        len = mhr_len + frag_n_len;
      }

  -- The loop over the frames after the first.
  unfoldable pub prepare_others : ℕ → ℕ → List Buffer → List Buffer
  unfolding prepare_next
  prepare_others payload_size fragn_offset [] = []
  prepare_others payload_size fragn_offset (f ∷ fs) =
      prepare_next payload_size fragn_offset f
      ∷ prepare_others payload_size
          (fragn_offset + whole_units (max_frame_size - mhr_len - frag_n_len)) fs

  unfoldable pub prepare_single : Buffer → Buffer
  prepare_single f = record {
    bytes = write_at f.bytes mhr_len (init_iphc c src_port dst_port);
    len = mhr_len + iphc;
  }

  -- `prepare_sixlowpan`
  unfoldable pub prepare_buffers : ℕ → List Buffer → Bool × List Buffer
  unfolding prepare_first prepare_others prepare_single
  prepare_buffers payload_size [] = (is_fragmented iphc payload_size, [])
  prepare_buffers payload_size (f ∷ fs) =
      let fragn_offset = whole_units (max_frame_size - mhr_len - frag_1_len - iphc + ipudp_len) in
      if is_fragmented iphc payload_size
      then (true, prepare_first payload_size f ∷ prepare_others payload_size fragn_offset fs)
      else (false, prepare_single f ∷ fs)

  -- `_set_chksum` on the first frame.
  unfoldable pub store_chksum : List ℕ → Buffer → Buffer
  store_chksum checksum f = record f {
    bytes = write_at f.bytes (f.len - iphc + (iphc - 2)) checksum;
  }

  -- A run of `exp_run` for the payload `bytes`: how many frames are used, and all of them.
  unfoldable pub run_buffers : Bool → ℕ → List ℕ → List ℕ → List Buffer → ℕ × List Buffer
  unfolding store_chksum fill_buffers
  run_buffers fragmented id checksum bytes [] = (0, [])
  run_buffers fragmented id checksum bytes (f ∷ fs) =
      let first : Buffer = store_chksum checksum f in
      let filled : Buffer = record {
        bytes = write_at first.bytes first.len bytes;
        len = first.len + length bytes;
      } in
      if fragmented then fill_buffers id bytes (first ∷ fs) else (1, filled ∷ fs)

  unfoldable pub reset_buffers : ℕ → List Buffer → List Buffer
  unfolding reset_lens
  reset_buffers payload_size [] = []
  reset_buffers payload_size (f ∷ fs) =
      if is_fragmented iphc payload_size
      then record f { len = mhr_len + iphc + frag_1_len } ∷ reset_lens fs
      else record f { len = mhr_len + iphc } ∷ fs

-- What `_netdev_recv` copies of a frame.
abbrev pub content : Buffer → List ℕ
content f = take f.len f.bytes
