-- ===== src/MsgSendReceive/Counting.antt =====
-- The two threads count together, and never wait for each other for good.
use riot_playground.Common.{
  ℕ, zero, suc, ◌+◌, ◌*◌, ◌/◌, ◌<◌, ◌≡◌, refl, ap, List, [], ◌∷◌, some, u32, arith,
}
use mathlib.Core.Path.{subst}
use riot_playground.MsgSendReceive.{
  first, second, ready, waiting, answered, receiving, received, incremented, replying, Threads,
  load, increment, print_response, deliver, increment_request, increment_response, reply, Step,
  send, count_request, count_response, answer, print, Reach, start, next,
}

-- The pairs of `n` exchanges, the newest first.
abbrev pub pairs : ℕ → List (ℕ × ℕ)
pairs zero = []
pairs (suc n) = (u32 (suc n), u32 (suc n)) ∷ pairs n

-- The steps of an exchange, in order.
data Phase : Type 0 where
  idle asked half both replied : Phase

place : Phase → ℕ
place idle = 0
place asked = 1
place half = 2
place both = 3
place replied = 4

-- The threads in the exchange after `n` exchanges.
at : ℕ → Phase → Threads
at n p = record {
  first_counter = elim p [ idle ↦ u32 n | asked ↦ u32 n | _ ↦ u32 (suc n) ];
  second_counter = elim p [ both ↦ u32 (suc n) | replied ↦ u32 (suc n) | _ ↦ u32 n ];
  asker = elim p [ idle ↦ ready | replied ↦ answered (some second) | _ ↦ waiting ];
  answerer = elim p [
    | asked ↦ received first
    | half ↦ incremented first
    | both ↦ replying
    | _ ↦ receiving
  ];
  printed = pairs n;
  nulls = 0;
}

-- A place in the run: the exchanges that are over, and the phase of the one that goes on.
record Spot (k : ℕ) (t : Threads) : Type 0 where
  over : ℕ
  phase : Phase
  steps : k ≡ 5 * over + place phase
  state : t ≡ at over phase

module _ (n : ℕ) where
  Step-Spot : (p : Phase) {u : Threads} → Step (at n p) u → Spot (5 * n + place p + 1) u
  unfolding at place deliver increment_request increment_response increment reply print_response
      load
  Step-Spot idle (send a b) = record { over = n; phase = asked; steps = omega arith; state = refl }
  Step-Spot asked (count_request first e) = record {
    over = n;
    phase = half;
    steps = omega arith;
    state = ground arith;
  }
  Step-Spot half (count_response p e) = record {
    over = n;
    phase = both;
    steps = omega arith;
    state = ground arith;
  }
  Step-Spot both (answer a b) = record {
    over = n;
    phase = replied;
    steps = omega arith;
    state = refl;
  }
  Step-Spot replied (print (some second) e) = record {
    over = suc n;
    phase = idle;
    steps = omega arith;
    state = refl;
  }
  Step-Spot p (send a b) = absurd (ground arith)
  Step-Spot p (count_request q e) = absurd (ground arith)
  Step-Spot p (count_response q e) = absurd (ground arith)
  Step-Spot p (answer a b) = absurd (ground arith)
  Step-Spot p (print r e) = absurd (ground arith)

place-lt : (p : Phase) → place p < 5
unfolding place
place-lt idle = omega arith
place-lt asked = omega arith
place-lt half = omega arith
place-lt both = omega arith
place-lt replied = omega arith

at-goes_on : (n : ℕ) (p : Phase) → (u : Threads) × Step (at n p) u
unfolding at
at-goes_on n idle = (_, send refl refl)
at-goes_on n asked = (_, count_request first refl)
at-goes_on n half = (_, count_response first refl)
at-goes_on n both = (_, answer refl refl)
at-goes_on n replied = (_, print (some second) refl)

Reach-Spot : {k : ℕ} {t : Threads} → Reach k t → Spot k t
unfolding at place
Reach-Spot start = record { over = 0; phase = idle; steps = refl; state = refl }
Reach-Spot (next {n = k} {u = u} r s) =
    let h = Reach-Spot r in rw h.steps (Step-Spot h.over h.phase (subst (λ t. Step t u) h.state s))

-- However the threads are interleaved: after any steps `thread1` has printed one pair for every
-- five of them, the pairs (1, 1), (2, 2) and so on in order (modulo 2 ^ 32), and no NULL response;
-- so it never sees one counter ahead of the other.
pub printed-Reach : {k : ℕ} {t : Threads} → Reach k t → (t.printed ≡ pairs (k / 5)) × (t.nulls ≡ 0)
unfolding at place
printed-Reach {k} {t} r =
    let h = Reach-Spot r in
    let exchanges : k / 5 ≡ h.over = omega (arith, h.steps, place-lt h.phase) in
    rw exchanges (ap (λ s. s.printed) h.state, ap (λ s. s.nulls) h.state)

-- The threads never stop: in every state of a run one of them can make a step.
pub exchange_goes_on : {k : ℕ} {t : Threads} → Reach k t → (u : Threads) × Step t u
unfolding at
exchange_goes_on r = let h = Reach-Spot r in rw h.state (at-goes_on h.over h.phase)
