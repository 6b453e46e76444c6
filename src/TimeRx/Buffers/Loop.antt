-- ===== src/TimeRx/Buffers/Loop.antt =====
-- `exp_run` on the bytes of the buffers, from the MAC headers on. RIOT's `ieee802154_set_frame_hdr`
-- and the sums of the Internet checksum are parameters.
pub mod Prepared
pub mod Ends
use riot_playground.Common.{
  ℕ, zero, suc, ◌+◌, ◌-◌, ◌/◌, List, [], ◌∷◌, Bool, Option, none, some, ltb, if◌then◌else◌, u8, u16,
  replicate, take, drop, map, set, write_at,
}
use riot_playground.TimeTx.{min_payload, max_payload, payload_step, exp_runs}
use riot_playground.Netdev.{netdev_addr_prefix, netdev_pan_id}
use riot_playground.TimeRx.{max_frame_size, max_fragments}
use riot_playground.TimeRx.Headers.{Constants, init_udp}
use riot_playground.TimeRx.Buffers.{Buffer, content, prepare_buffers, run_buffers, reset_buffers}

-- EXP_ADDR_L2
abbrev pub src_l2 : List ℕ
src_l2 = 0x02 ∷ 0x12 ∷ 0x34 ∷ 0x56 ∷ 0x78 ∷ 0x9a ∷ 0xbc ∷ 0xde ∷ []

abbrev pub dst_l2 : List ℕ
dst_l2 = set netdev_addr_prefix 7 0

-- The static buffers, which are zero.
abbrev pub no_frames : List Buffer
no_frames = replicate max_fragments (record { bytes = replicate max_frame_size 0; len = 0 })

-- The bytes of a `le_uint16_t`.
abbrev pub byteorder_btols : ℕ → List ℕ
byteorder_btols n = u8 n ∷ u8 (n / 256) ∷ []

-- `frame_hdr src dst src_pan dst_pan seq` is the header that `ieee802154_set_frame_hdr` writes, for a
-- data frame that is to be acknowledged.
abbrev pub FrameHdr : Type 0
FrameHdr = List ℕ → List ℕ → List ℕ → List ℕ → ℕ → List ℕ

-- The MAC header of the buffer number `i`.
abbrev pub mhr_of : FrameHdr → ℕ → List ℕ
mhr_of frame_hdr i =
    let pan_id = byteorder_btols netdev_pan_id in frame_hdr src_l2 dst_l2 pan_id pan_id i

-- The loop of `prepare_mhrs` from buffer number `i` on.
unfoldable pub prepare_mhrs : FrameHdr → ℕ → List Buffer → List Buffer
prepare_mhrs frame_hdr i [] = []
prepare_mhrs frame_hdr i (f ∷ fs) =
    record f { bytes = write_at f.bytes 0 (mhr_of frame_hdr i) } ∷ prepare_mhrs frame_hdr (i + 1) fs

module _ (c : Constants) (inet_csum : ℕ → List ℕ → ℕ) (pseudo_csum : ℕ → ℕ → ℕ)
    (src_port dst_port : ℕ) where
  -- The checksum in the UDP header of the payload `bytes`.
  abbrev pub checksum_of : List ℕ → List ℕ
  checksum_of bytes = drop 6 (init_udp inet_csum pseudo_csum src_port dst_port bytes)

  -- The loop over the runs for `n` more of them, the first of them number `id`: the buffers after
  -- them, and what was handed over, the newest run first.
  unfoldable pub each_id :
      Bool → ℕ → ℕ → ℕ → List Buffer → List (List (List ℕ)) → List Buffer × List (List (List ℕ))
  unfolding run_buffers reset_buffers init_udp
  each_id fragmented payload_size zero id frag_buf handed = (frag_buf, handed)
  each_id fragmented payload_size (suc n) id frag_buf handed =
      let bytes = replicate payload_size (u8 id) in
      let (fragments, filled) =
        run_buffers c src_port dst_port fragmented id (checksum_of bytes) bytes frag_buf in
      each_id fragmented payload_size n (id + 1)
        (reset_buffers c src_port dst_port payload_size filled)
        (map content (take fragments filled) ∷ handed)

  -- All runs of a size.
  unfoldable pub one_size :
      ℕ → List Buffer → List (List (List ℕ)) → List Buffer × List (List (List ℕ))
  unfolding prepare_buffers each_id
  one_size payload_size frag_buf handed =
      let (fragmented, prepared) = prepare_buffers c src_port dst_port payload_size frag_buf in
      each_id fragmented payload_size exp_runs 0 prepared handed

  -- The loop over the sizes from one on, which is a `uint16_t`, with fuel; `none` means that the fuel
  -- ran out.
  unfoldable pub each_size :
      ℕ → ℕ → List Buffer → List (List (List ℕ)) → Option (List (List (List ℕ)))
  unfolding one_size
  each_size zero payload_size frag_buf handed = none
  each_size (suc f) payload_size frag_buf handed =
      let (frag_buf', handed') = one_size payload_size frag_buf handed in
      let rest = each_size f (u16 (payload_size + payload_step)) frag_buf' handed' in
      if ltb max_payload payload_size then some handed else rest

  -- There are 154 sizes.
  unfoldable pub exp_run : FrameHdr → Option (List (List (List ℕ)))
  unfolding each_size prepare_mhrs
  exp_run frame_hdr = each_size 155 min_payload (prepare_mhrs frame_hdr 0 no_frames) []
