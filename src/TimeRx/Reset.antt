-- ===== src/TimeRx/Reset.antt =====
-- Each run starts from the headers that were prepared.
use Prim.Native.Nat.{min}
use riot_playground.Common.{
  drop, u8, ◌==◌, ℕ, zero, suc, ◌+◌, ◌-◌, ◌*◌, ◌/◌, ◌≡◌, refl, ap, List, [], ◌∷◌, true, arith,
  length, Bool-cases, if_false, inl, inr,
}
use riot_playground.TimeRx.{
  Frag, fill, frames, prepare_frags, prepare_sixlowpan, fill_single, reset_others, reset_frag_buf,
  is_fragmented,
}

reset_others-fill :
    (n off : ℕ) (bytes : List ℕ)
    → reset_others (fill bytes (prepare_frags n off)).1 ≡ prepare_frags n off
unfolding reset_others fill prepare_frags
reset_others-fill zero off bytes = refl
reset_others-fill (suc n) off bytes =
    let ih = reset_others-fill n (off + 96) (drop (min 96 (length bytes)) bytes) in
    let both = ap (λ fs. record { head = 28; offset = u8 (off / 8); body = [] } ∷ fs) ih in
    elim (Bool-cases (length bytes == 0)) [ inl e ↦ rw e both | inr e ↦ rw e both ]

abbrev first_frag : ℕ → Frag
first_frag iphc = record { head = 23 + 4 + iphc; offset = 0; body = [] }

reset-fill :
    (iphc size n off : ℕ) (bytes : List ℕ)
    → is_fragmented iphc size ≡ true
    → reset_frag_buf iphc size (fill bytes (first_frag iphc ∷ prepare_frags n off)).1
      ≡ first_frag iphc ∷ prepare_frags n off
unfolding reset_frag_buf fill
reset-fill iphc size n off bytes h =
    let max_len = min ((125 - (23 + 4 + iphc + 0)) / 8 * 8) (length bytes) in
    let ih = reset_others-fill n off (drop max_len bytes) in
    let sum : 23 + iphc + 4 ≡ 23 + 4 + iphc = omega arith in
    elim (Bool-cases (length bytes == 0)) [
      | inl e ↦ rw (e, h, sum) (ap (λ fs. first_frag iphc ∷ fs) ih)
      | inr e ↦ rw (e, h, sum) (ap (λ fs. first_frag iphc ∷ fs) ih)
    ]

-- After a run, the frames are reset to those that were prepared for the size of the payload, so
-- that the next run with this size starts from the same ones.
pub reset_frag_buf-frames :
    (iphc : ℕ) (bytes : List ℕ)
    → reset_frag_buf iphc (length bytes) (frames iphc bytes).1
      ≡ (prepare_sixlowpan iphc (length bytes)).1
unfolding reset_frag_buf frames prepare_sixlowpan fill_single
reset_frag_buf-frames iphc bytes = elim (Bool-cases (is_fragmented iphc (length bytes))) [
  | inl e ↦
      rw (frames, prepare_sixlowpan, e)
        (reset-fill iphc (length bytes) 17 ((125 - 23 - 4 - iphc + 48) / 8 * 8) bytes e)
  | inr e ↦ rw (frames, prepare_sixlowpan, e) (if_false (is_fragmented iphc (length bytes)) _ _ e)
]
