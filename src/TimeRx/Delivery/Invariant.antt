-- ===== src/TimeRx/Delivery/Invariant.antt =====
-- What holds of a run of exp.c, at any point of both threads, until the buffers are reset.
use riot_playground.Common.{
  ℕ, zero, suc, ◌+◌, ◌-◌, ◌%◌, ◌≤◌, ◌<◌, ◌≡◌, refl, sym, ap, ==_iff, ◌⊎◌, inl, inr, Bool-cases, ◌∙◌,
  List, [], ◌∷◌, Option, none, some, ltb, ◌==◌, u8, length, get_or, set, arith, get_or-set_self,
  length-set,
}
use mathlib.Core.Path.{subst}
use riot_playground.TimeRx.Headers.{Constants}
use riot_playground.TimeRx.Buffers.{Buffer}
use riot_playground.TimeRx.Delivery.{
  Sender, signalling, waiting, finished, Run, frame, buf_len, netdev_recv, netdev_return, answered,
  drop_frame, signal, wait, begin, StackStep, receives, returns, drops, MainStep, signals, waits,
  resets, Step, main, stack, Reach, begins, next, reset,
}

-- The bytes that the stack was given, the newest first, and the time of the first call.
abbrev pub given : List (ℕ × List ℕ) → List (List ℕ)
given [] = []
given ((now, bytes) ∷ got) = bytes ∷ given got

abbrev pub first_time : List (ℕ × List ℕ) → ℕ
first_time [] = 0
first_time ((now, bytes) ∷ []) = now
first_time (x ∷ y ∷ got) = first_time (y ∷ got)

-- The first `n` frames, the newest first.
abbrev pub first_frames : List Buffer → ℕ → List (List ℕ)
first_frames bufs zero = []
first_frames bufs (suc n) = frame bufs n ∷ first_frames bufs n

-- The lengths of the first `n` frames, the newest first.
abbrev pub first_lens : List Buffer → ℕ → List ℕ
first_lens bufs zero = []
first_lens bufs (suc n) = buf_len bufs n ∷ first_lens bufs n

-- How far the loop is, and how many of its signals are neither dealt with nor waited for.
abbrev pub Balanced : ℕ → Sender → Run → Type 0
Balanced fragments (signalling i) r =
    (i ≤ fragments) × (r.pending + r.sync + r.dropped ≡ 0) × (r.frag + r.refused ≡ i)
Balanced fragments (waiting i) r =
    (i < fragments) × (r.pending + r.sync + r.dropped ≡ 1) × (r.frag + r.refused ≡ i + r.sync)
Balanced fragments finished r = Unit

-- The calls have returned the lengths of their frames, but for the last, if it has not returned.
abbrev pub Returned : List Buffer → Option ℕ → ℕ → List ℕ → Type 0
Returned bufs none frag returned = returned ≡ first_lens bufs frag
Returned bufs (some f) frag returned = (suc f ≡ frag) × (returned ≡ first_lens bufs f)

pub record Inv (bufs : List Buffer) (fragments id : ℕ) (r : Run) : Type 0 where
  pub balanced : Balanced fragments r.sender r
  pub running : ¬ (r.sender ≡ finished)
  pub same_bufs : r.bufs ≡ bufs
  pub in_order : given r.got ≡ first_frames bufs r.frag
  pub lens : Returned bufs r.returning r.frag r.returned
  pub window : length r.timer_window ≡ 16
  pub same_id : r.id ≡ id
  pub timed : 0 < r.frag → get_or r.timer_window (id % 16) 0 ≡ first_time r.got

-- Where the loop over the fragments stands.
pub Sender-cases :
    (s : Sender) → ¬ (s ≡ finished) → ((i : ℕ) × (s ≡ signalling i)) ⊎ ((i : ℕ) × (s ≡ waiting i))
Sender-cases (signalling i) h = inl (i, refl)
Sender-cases (waiting i) h = inr (i, refl)
Sender-cases finished h = absurd (h refl)

-- A later call does not change the time of the first.
first_time-cons :
    (bufs : List Buffer) (n now : ℕ) (bytes : List ℕ) (got : List (ℕ × List ℕ))
    → given got ≡ first_frames bufs (suc n)
    → first_time ((now, bytes) ∷ got) ≡ first_time got
first_time-cons bufs n now bytes [] e = cc
first_time-cons bufs n now bytes (x ∷ got) e = refl

-- The first call finds nothing given before.
first_time-one :
    (now : ℕ) (bytes : List ℕ) (got : List (ℕ × List ℕ))
    → given got ≡ []
    → first_time ((now, bytes) ∷ got) ≡ now
first_time-one now bytes [] e = refl
first_time-one now bytes ((t, bs) ∷ got) e = cc

module _ (bufs : List Buffer) (fragments id : ℕ) (few : fragments ≤ 18) where
  abbrev pub Inv' : Run → Type 0
  Inv' = Inv bufs fragments id

  -- An answer to the signal of fragment `i`.
  netdev_recv-Balanced :
      (now len i : ℕ) (r : Run)
      → r.sender ≡ waiting i
      → 0 < r.pending
      → Balanced fragments (waiting i) r
      → let r' = (netdev_recv now len (answered r)).1 in
        (r'.sender ≡ waiting i) × Balanced fragments (waiting i) r' × (r'.bufs ≡ r.bufs)
  unfolding netdev_recv
  netdev_recv-Balanced now len i r e h b = ground arith

  netdev_recv-timed :
      (now len i : ℕ) (r : Run)
      → Balanced fragments (waiting i) r
      → r.returning ≡ none
      → Inv' r
      → let r' = (netdev_recv now len (answered r)).1 in
        (given r'.got ≡ first_frames bufs r'.frag)
        × Returned bufs r'.returning r'.frag r'.returned
        × (length r'.timer_window ≡ 16)
        × (r'.id ≡ id)
        × (0 < r'.frag → get_or r'.timer_window (id % 16) 0 ≡ first_time r'.got)
  unfolding netdev_recv
  netdev_recv-timed now len i r b idle v =
      let bytes = frame r.bufs r.frag in
      let wrap : u8 (r.frag + 1) ≡ suc r.frag = omega arith in
      let more : given ((now, bytes) ∷ r.got) ≡ first_frames bufs (suc r.frag) =
        ap (λ fs. bytes ∷ fs) v.in_order
        ∙ ap (λ bs. frame bs r.frag ∷ first_frames bufs r.frag) v.same_bufs in
      let lens : r.returned ≡ first_lens bufs r.frag =
        subst (λ o. Returned bufs o r.frag r.returned) idle v.lens in
      elim (Bool-cases (ltb len (buf_len r.bufs r.frag))) [
        | inl short ↦ rw short (v.in_order, v.lens, v.window, v.same_id, v.timed)
        | inr fits ↦ elim (Bool-cases (r.frag == 0)) [
          | inl new ↦
              let zero_frag : r.frag ≡ 0 = (==_iff r.frag 0).0 new in
              let nothing : given r.got ≡ [] =
                v.in_order ∙ ap (λ n. first_frames bufs n) zero_frag in
              let slot =
                get_or-set_self r.timer_window (r.id % 16) now 0 (omega (arith, v.window)) in
              rw (fits, new, wrap)
                (
                  more,
                  (refl, lens),
                  length-set r.timer_window (r.id % 16) now ∙ v.window,
                  v.same_id,
                  (λ some_frag.
                      subst
                        (λ j.
                          get_or (set r.timer_window (r.id % 16) now) (j % 16) 0
                          ≡ first_time ((now, bytes) ∷ r.got))
                        v.same_id (slot ∙ sym (first_time-one now bytes r.got nothing))),
                )
          | inr old ↦
              let some_frag : 0 < r.frag = ground (arith, old) in
              let frags : r.frag ≡ suc (r.frag - 1) = omega arith in
              let given_some = v.in_order ∙ ap (λ n. first_frames bufs n) frags in
              rw (fits, old, wrap)
                (
                  more,
                  (refl, lens),
                  v.window,
                  v.same_id,
                  (λ any_frag.
                      v.timed some_frag
                      ∙ sym (first_time-cons bufs (r.frag - 1) now bytes r.got given_some)),
                )
        ]
      ]

  returns-lens :
      (f : ℕ) (r : Run)
      → r.returning ≡ some f
      → Inv' r
      → buf_len r.bufs f ∷ r.returned ≡ first_lens bufs r.frag
  returns-lens f r e v =
      let (frags, lens) = subst (λ o. Returned bufs o r.frag r.returned) e v.lens in
      ap (λ bs. buf_len bs f ∷ r.returned) v.same_bufs
      ∙ ap (λ ns. buf_len bufs f ∷ ns) lens
      ∙ ap (λ n. first_lens bufs n) frags

  StackStep-Inv : {r r' : Run} → StackStep r r' → Inv' r → Inv' r'
  unfolding netdev_return drop_frame
  StackStep-Inv {r} (receives now len idle h) v = elim (Sender-cases r.sender v.running) [
    | inl (i, e) ↦ let b = rw e at v.balanced in absurd (omega arith)
    | inr (i, e) ↦
        let b = rw e at v.balanced in
        let (e', b', same) = netdev_recv-Balanced now len i r e h b in
        let (o, l, w, s, t) = netdev_recv-timed now len i r b idle v in
        record {
          balanced = rw e' b';
          running = λ q. v.running (e ∙ sym e' ∙ q);
          same_bufs = same ∙ v.same_bufs;
          in_order = o;
          lens = l;
          window = w;
          same_id = s;
          timed = t;
        }
  ]
  StackStep-Inv {r} (returns f e) v = record {
    balanced = elim (Sender-cases r.sender v.running) [
      | inl (i, at) ↦ let b = rw at at v.balanced in rw at b
      | inr (i, at) ↦ let b = rw at at v.balanced in rw at b
    ];
    running = v.running;
    same_bufs = v.same_bufs;
    in_order = v.in_order;
    lens = returns-lens f r e v;
    window = v.window;
    same_id = v.same_id;
    timed = v.timed;
  }
  StackStep-Inv {r} (drops idle h) v = record {
    balanced = elim (Sender-cases r.sender v.running) [
      | inl (i, at) ↦ let b = rw at at v.balanced in absurd (omega arith)
      | inr (i, at) ↦ let b = rw at at v.balanced in rw at (omega arith, omega arith, omega arith)
    ];
    running = v.running;
    same_bufs = v.same_bufs;
    in_order = v.in_order;
    lens = v.lens;
    window = v.window;
    same_id = v.same_id;
    timed = v.timed;
  }

  module _ (c : Constants) (src_port dst_port payload_size : ℕ) where
    MainStep-Inv :
        {r r' : Run}
        → MainStep c src_port dst_port payload_size fragments r r'
        → Inv' r
        → Inv' r' ⊎ (r'.sender ≡ finished)
    unfolding signal wait reset
    MainStep-Inv {r} (signals i e h) v =
        let b = rw e at v.balanced in
        inl (record {
          balanced = (h, omega arith, omega arith);
          running = λ q. cc;
          same_bufs = v.same_bufs;
          in_order = v.in_order;
          lens = v.lens;
          window = v.window;
          same_id = v.same_id;
          timed = v.timed;
        })
    MainStep-Inv {r} (waits i e h) v =
        let b = rw e at v.balanced in
        inl (record {
          balanced = (omega arith, omega arith, omega arith);
          running = λ q. cc;
          same_bufs = v.same_bufs;
          in_order = v.in_order;
          lens = v.lens;
          window = v.window;
          same_id = v.same_id;
          timed = v.timed;
        })
    MainStep-Inv {r} (resets e) v = inr refl

    -- A run that is over stays so.
    Step-finished :
        {r r' : Run}
        → Step c src_port dst_port payload_size fragments r r'
        → r.sender ≡ finished
        → r'.sender ≡ finished
    unfolding signal wait reset netdev_recv netdev_return drop_frame
    Step-finished (main (signals i e' h)) e = absurd cc
    Step-finished (main (waits i e' h)) e = absurd cc
    Step-finished (main (resets e')) e = refl
    Step-finished {r} (stack (receives now len idle h)) e = ground arith
    Step-finished (stack (returns f e')) e = e
    Step-finished (stack (drops idle h)) e = e

    Step-Inv :
        {r r' : Run}
        → Step c src_port dst_port payload_size fragments r r'
        → Inv' r
        → Inv' r' ⊎ (r'.sender ≡ finished)
    Step-Inv (main m) v = MainStep-Inv m v
    Step-Inv (stack t) v = inl (StackStep-Inv t v)

    pub Reach-Inv :
        {timer_window : List ℕ} {r : Run}
        → length timer_window ≡ 16
        → Reach c src_port dst_port payload_size fragments bufs id timer_window r
        → Inv' r ⊎ (r.sender ≡ finished)
    unfolding begin
    Reach-Inv sized begins = inl (record {
      balanced = (omega arith, refl, refl);
      running = λ q. cc;
      same_bufs = refl;
      in_order = refl;
      lens = refl;
      window = sized;
      same_id = refl;
      timed = λ h. absurd (omega arith);
    })
    Reach-Inv sized (next reach step) = elim (Reach-Inv sized reach) [
      | inl v ↦ Step-Inv step v
      | inr e ↦ inr (Step-finished step e)
    ]
