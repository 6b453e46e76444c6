-- ===== src/TimeRx/Buffers/Filling.antt =====
-- The writes of a run fill the frames as the model of TimeRx says.
use Prim.Native.Nat.{min}
use riot_playground.Common.{
  ℕ, suc, ◌+◌, ◌-◌, ◌*◌, ◌/◌, ◌≤◌, ◌≡◌, ◌≢◌, refl, sym, ap, ◌∙◌, List, [], ◌∷◌, ◌++◌, map, true,
  false, ◌==◌, length, take, drop, write_at, arith, length-take, length-drop, All,
}
use native.Mathlib.Decide.{dec_lt}
use riot_playground.TimeRx.{Frag, frag_len, fill, whole_units}
use riot_playground.TimeRx.Experiment.Delivered.{fill-empty}
use riot_playground.TimeRx.Headers.{htons}
use riot_playground.TimeRx.Buffers.{Buffer, content, fill_buffers, reset_lens}
use riot_playground.TimeRx.Buffers.Slots.{
  Slot, IsSlot, Stands, filled, content-stored, Stands-stored, Stands-tagged,
}

abbrev pub frag_of : Slot → Frag
frag_of s = record { head = 27 + length s.tail; offset = s.offset; body = [] }

abbrev pub StandAll : List Slot → List Buffer → Type 0
StandAll [] [] = Unit
StandAll (s ∷ ss) (f ∷ fs) = Stands s f × StandAll ss fs
StandAll [] (f ∷ fs) = ⊥
StandAll (s ∷ ss) [] = ⊥

-- The buffer as it stands once its length is reset.
abbrev pub Kept : Slot → Buffer → Type 0
Kept s f = Stands s (record f { len = 27 + length s.tail })

abbrev pub KeptAll : List Slot → List Buffer → Type 0
KeptAll [] [] = Unit
KeptAll (s ∷ ss) (f ∷ fs) = Kept s f × KeptAll ss fs
KeptAll [] (f ∷ fs) = ⊥
KeptAll (s ∷ ss) [] = ⊥

-- The bytes of the frames, for the data that the frames of the model hold.
abbrev pub filled_all : ℕ → List Slot → List Frag → List (List ℕ)
filled_all id [] gs = []
filled_all id (s ∷ ss) [] = []
filled_all id (s ∷ ss) (g ∷ gs) = filled s id g.body ∷ filled_all id ss gs

fill-unused :
    (g : Frag) (gs : List Frag) (rest : List ℕ) (m : ℕ)
    → m ≡ min (whole_units (125 - frag_len g)) (length rest)
    → length rest ≡ 0
    → fill rest (g ∷ gs)
      ≡ ((fill (drop m rest) gs).0, record g { head = 0; body = [] } ∷ (fill (drop m rest) gs).1)
unfolding fill
fill-unused g gs rest m e h =
    let nothing : (length rest == 0) ≡ true = ground arith in rw (e, nothing) refl

fill-some :
    (g : Frag) (gs : List Frag) (rest : List ℕ) (m : ℕ)
    → m ≡ min (whole_units (125 - frag_len g)) (length rest)
    → length rest ≢ 0
    → fill rest (g ∷ gs) ≡ (
      suc (fill (drop m rest) gs).0,
      record g { body = g.body ++ take m rest } ∷ (fill (drop m rest) gs).1,
    )
unfolding fill
fill-some g gs rest m e h =
    let more : (length rest == 0) ≡ false = ground (arith, h) in rw (e, more) refl

fill_buffers-empty :
    (id : ℕ) (f : Buffer) (fs : List Buffer) (rest : List ℕ) (m : ℕ)
    → m ≡ min (whole_units (125 - f.len)) (length rest)
    → length rest ≡ 0
    → let (used, others) = fill_buffers id (drop m rest) fs in
      fill_buffers id rest (f ∷ fs)
      ≡ (used, record { bytes = write_at f.bytes 25 (htons id); len = 0 } ∷ others)
unfolding fill_buffers
fill_buffers-empty id f fs rest m e h =
    let nothing : (length rest == 0) ≡ true = ground arith in rw (e, nothing) refl

fill_buffers-some :
    (id : ℕ) (f : Buffer) (fs : List Buffer) (rest : List ℕ) (m : ℕ)
    → m ≡ min (whole_units (125 - f.len)) (length rest)
    → length rest ≢ 0
    → let (used, others) = fill_buffers id (drop m rest) fs in
      fill_buffers id rest (f ∷ fs) ≡ (
        suc used,
        record {
          bytes = write_at (write_at f.bytes 25 (htons id)) f.len (take m rest);
          len = f.len + m;
        }
            ∷ others,
      )
unfolding fill_buffers
fill_buffers-some id f fs rest m e h =
    let more : (length rest == 0) ≡ false = ground (arith, h) in rw (e, more) refl

-- The run uses as many frames as the model, they hold what the frames of the model hold behind
-- their headers, and all buffers are left as they stood, but for their lengths.
pub record Simulated (id : ℕ) (ss : List Slot) (run : ℕ × List Buffer) (model : ℕ × List Frag)
    : Type 0 where
  pub same_used : run.0 ≡ model.0
  pub same_bytes : map content (take run.0 run.1) ≡ filled_all id ss (take model.0 model.1)
  pub kept : KeptAll ss run.1

Simulated-cons :
    (id : ℕ) (s : Slot) (ss : List Slot) (f : Buffer) (fs : List Buffer) (rest : List ℕ) (m : ℕ)
    → IsSlot s
    → Stands s f
    → m ≡ min (whole_units (125 - (27 + length s.tail + 0))) (length rest)
    → Simulated id ss (fill_buffers id (drop m rest) fs) (fill (drop m rest) (map frag_of ss))
    → Simulated id (s ∷ ss) (fill_buffers id rest (f ∷ fs)) (fill rest (frag_of s ∷ map frag_of ss))
Simulated-cons id s ss f fs rest m slot v e ih =
    let e' : m ≡ min (whole_units (125 - f.len)) (length rest) =
      e ∙ ap (λ k. min (whole_units (125 - k)) (length rest)) (omega (arith, v.len)) in
    let taken : length (take m rest) ≡ m = length-take m rest (omega (arith, e)) in
    let fits : m + f.len ≤ 125 = omega (arith, e', v.len, slot) in
    elim (dec_lt 0 (length rest)) [
      | no none_left ↦
          let empty : length rest ≡ 0 = omega arith in
          let left = map frag_of ss in
          let (unused, nothing) =
            fill-empty (drop m rest) left (omega (arith, length-drop m rest)) in
          let tagged : Buffer = record { bytes = write_at f.bytes 25 (htons id); len = 0 } in
          let out = tagged ∷ (fill_buffers id (drop m rest) fs).1 in
          let gone : Frag = record { head = 0; offset = s.offset; body = [] } in
          let out' = gone ∷ (fill (drop m rest) left).1 in
          rw
            (
              fill_buffers-empty id f fs rest m e' empty,
              fill-unused (frag_of s) (map frag_of ss) rest m e empty,
            )
            record {
              same_used = ih.same_used;
              same_bytes =
                  ap (λ n. map content (take n out)) (ih.same_used ∙ unused)
                  ∙ sym (ap (λ n. filled_all id (s ∷ ss) (take n out')) unused);
              kept = (Stands-tagged s id slot f v (27 + length s.tail) refl, ih.kept);
            }
      | yes some_left ↦
          let (used, out) = fill_buffers id (drop m rest) fs in
          rw
            (
              fill_buffers-some id f fs rest m e' (λ none. omega arith),
              fill-some (frag_of s) (map frag_of ss) rest m e (λ none. omega arith),
            )
            record {
              same_used = ap suc ih.same_used;
              same_bytes =
                  ap (λ bs. bs ∷ map content (take used out))
                    (content-stored s id slot f v (take m rest) m (sym taken) fits)
                  ∙ ap (λ bss. filled s id (take m rest) ∷ bss) ih.same_bytes;
              kept = (
                Stands-stored s id slot f v (take m rest) (27 + length s.tail)
                    (omega (arith, taken)) refl,
                ih.kept,
              );
            }
    ]

pub fill_buffers-Simulated :
    (id : ℕ) (rest : List ℕ) (ss : List Slot) (fs : List Buffer)
    → All IsSlot ss
    → StandAll ss fs
    → Simulated id ss (fill_buffers id rest fs) (fill rest (map frag_of ss))
unfolding fill_buffers fill
fill_buffers-Simulated id rest [] [] slots v = record {
  same_used = refl;
  same_bytes = refl;
  kept = tt;
}
fill_buffers-Simulated id rest [] (f ∷ fs) slots v = absurd v
fill_buffers-Simulated id rest (s ∷ ss) [] slots v = absurd v
fill_buffers-Simulated id rest (s ∷ ss) (f ∷ fs) (slot, slots) (v, vs) =
    let m = min ((125 - (27 + length s.tail + 0)) / 8 * 8) (length rest) in
    Simulated-cons id s ss f fs rest m slot v refl
      (fill_buffers-Simulated id (drop m rest) ss fs slots vs)

-- The frames after the first have one byte, the offset, between the tag and the data.
pub reset_lens-StandAll :
    (ss : List Slot) (fs : List Buffer)
    → All (λ s. length s.tail ≡ 1) ss
    → KeptAll ss fs
    → StandAll ss (reset_lens fs)
unfolding reset_lens
reset_lens-StandAll [] [] one kept = tt
reset_lens-StandAll [] (f ∷ fs) one kept = kept
reset_lens-StandAll (s ∷ ss) [] one kept = kept
reset_lens-StandAll (s ∷ ss) (f ∷ fs) (one, ones) (k, ks) = (
  record {
    tag = k.tag;
    rest = k.rest;
    split = k.split;
    tag_len = k.tag_len;
    size = k.size;
    len = omega (arith, one);
  },
  reset_lens-StandAll ss fs ones ks,
)
