-- ===== src/TimeRx/Buffers/Promise.antt =====
-- What a run is to hand over.
use riot_playground.Common.{
  ℕ, ◌%◌, ◌^◌, ◌≤◌, ◌≡◌, List, map, some, length, take, replicate, u8, All,
}
use riot_playground.TimeRx.{}
use riot_playground.TimeRx.Headers.{Constants}
use riot_playground.TimeRx.Buffers.{}
use riot_playground.TimeRx.Buffers.Filling.{}
use riot_playground.TimeRx.Buffers.Receiver.{headers_of, receive_all}
use riot_playground.TimeRx.Buffers.Reassembly.{}

-- The constants of RFC 4944 and RFC 6282.
abbrev pub rfc : Constants
rfc = record {
  frag_1_disp = 0xc0;
  frag_n_disp = 0xe0;
  iphc1_disp = 0x60;
  iphc1_tf = 0x18;
  iphc1_nh = 0x04;
  iphc2_sam = 0x30;
  iphc2_dam = 0x03;
}

-- What run `id` hands over for a payload of `size` bytes: at most 18 frames, none longer than a
-- frame may be, each with the MAC header of its buffer, which the receiver puts together to the
-- payload, whatever its own buffer was filled with. The first has the compressed headers and the checksum,
-- `headers`.
pub record Delivers (mhrs : List (List ℕ)) (headers : List ℕ) (iphc size id : ℕ)
    (handed : List (List ℕ)) : Type 0 where
  pub few : length handed ≤ 18
  pub inside : All (λ f. length f ≤ 125) handed
  pub addressed : map (take 23) handed ≡ take (length handed) mhrs
  pub headed : headers_of iphc size (id % 2 ^ 16) handed ≡ headers
  pub received :
      (x : ℕ)
      → receive_all iphc size (id % 2 ^ 16) handed (replicate size x)
        ≡ some (replicate size (u8 id))

abbrev pub HasLength : ℕ → List ℕ → Type 0
HasLength n xs = length xs ≡ n
