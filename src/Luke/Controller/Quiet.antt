-- ===== src/Luke/Controller/Quiet.antt =====
-- The client when the button is left alone: it goes on until everything is posted, and stops.
use riot_playground.Common.{
  ℕ, zero, suc, ◌+◌, ◌*◌, ◌≤◌, ◌<◌, ◌≡◌, ◌⊎◌, inl, inr, refl, Bool, true, false, ltb, if◌then◌else◌,
  u32, arith, Bool-cases,
}
use riot_playground.Luke.Controller.{
  Client, waiting, received, took, scheduling, posting, Controller, take_counter, fetch_sub,
  schedule, post, Step, timer, receive, take, subtract, reschedule, send, Reach,
}
use riot_playground.Luke.Controller.Invariant.{
  OnePending, Step-OnePending, Reach-OnePending, accounted, Step-accounted, Reach-accounted, total,
  pending,
}

pub data Steps : Controller → Controller → Type 0 where
  done : {s : Controller} → Steps s s
  go : {s s' s'' : Controller} → Step s s' → Steps s' s'' → Steps s s''

client_rank : Client → ℕ
client_rank waiting = 0
client_rank received = 4
client_rank (took c) = 3
client_rank (scheduling c) = 8
client_rank (posting c) = 1

-- How many steps are left at most.
pub rank : Controller → ℕ
rank s =
    8 * s.sends_remaining
    + ((if s.timer_armed then 6 else 0) + (5 * s.queued + client_rank s.client))

-- Every step of the timer and of `_client` brings the end nearer.
rank-Step : {s s' : Controller} → OnePending s → Step s s' → rank s' < rank s
unfolding rank client_rank take_counter fetch_sub schedule post
rank-Step {s} v (timer e) = ground arith
rank-Step {s} v (receive e h) = ground arith
rank-Step {s} v (take e) = ground arith
rank-Step {s} v (subtract c e) = ground arith
rank-Step {s} v (reschedule c e) = ground arith
rank-Step {s} v (send c e) = ground arith

-- Nothing is left to do.
pub record Quiet (s : Controller) : Type 0 where
  pub none_remain : s.sends_remaining ≡ 0
  pub none_counted : s.counter ≡ 0
  pub none_pending : pending s ≡ 0
  pub back : s.client ≡ waiting

abbrev CanStep : Controller → Type 0
CanStep s = (s' : Controller) × Step s s'

progress : (s : Controller) → OnePending s → CanStep s ⊎ Quiet s
progress s v = by_client s.client refl
  where
    idle : s.client ≡ waiting → (armed : Bool) → s.timer_armed ≡ armed → CanStep s ⊎ Quiet s
    idle e true a = inl (_, timer a)
    idle e false a = elim (Bool-cases (ltb 0 s.queued)) [
      | inl q ↦ inl (_, receive e (ground arith))
      | inr q ↦ inr (record {
        none_remain = ground arith;
        none_counted = ground arith;
        none_pending = ground arith;
        back = e;
      })
    ]

    by_client : (c : Client) → s.client ≡ c → CanStep s ⊎ Quiet s
    by_client waiting e = idle e s.timer_armed refl
    by_client received e = inl (_, take e)
    by_client (took n) e = inl (_, subtract n e)
    by_client (scheduling n) e = inl (_, reschedule n e)
    by_client (posting n) e = inl (_, send n e)

abbrev QuietAfter : Controller → Type 0
QuietAfter s = (s' : Controller) × Steps s s' × Quiet s' × (accounted s' ≡ accounted s)

quiet_within : (fuel : ℕ) (s : Controller) → rank s < fuel → OnePending s → QuietAfter s
quiet_within zero s h v = absurd (omega arith)
quiet_within (suc fuel) s h v = elim (progress s v) [
  | inl (s', t) ↦
      let (s'', ts, q, a) =
        quiet_within fuel s' (omega (arith, rank-Step v t)) (Step-OnePending t v) in
      (s'', go t ts, q, rw a (Step-accounted t))
  | inr q ↦ (s, done, q, refl)
]

-- From every state of every run, the steps of the timer and of `_client` alone lead to a state in
-- which nothing is counted, in hand or pending, and in which the numbers that
-- `post_points_to_target` was called with add up to the presses of the button, modulo 2 ^ 32.
pub posts_all :
    {n : ℕ} {s : Controller}
    → Reach n s
    → (s' : Controller) × Steps s s' × Quiet s' × (u32 (total s'.posted) ≡ u32 n)
posts_all {n} {s} r =
    let (s', ts, q, a) = quiet_within (suc (rank s)) s (omega arith) (Reach-OnePending r) in
    let posted : u32 (total s'.posted) ≡ u32 (accounted s') =
      ground (arith, q.back, q.none_counted) in
    (s', ts, q, omega (arith, posted, a, Reach-accounted r))

abbrev pub count_steps : {s s' : Controller} → Steps s s' → ℕ
count_steps done = 0
count_steps (go t ts) = suc (count_steps ts)

Steps-bound : {s s' : Controller} (ts : Steps s s') → OnePending s → count_steps ts ≤ rank s
Steps-bound done v = omega arith
Steps-bound (go t ts) v = omega (arith, rank-Step v t, Steps-bound ts (Step-OnePending t v))

rank_bound : (s : Controller) → OnePending s → rank s ≤ 88
unfolding rank client_rank
rank_bound s v = ground arith

-- However the steps of the timer and of `_client` are interleaved, at most 88 of them come without a
-- press of the button: no run of them goes on for ever.
pub stops : {n : ℕ} {s s' : Controller} → Reach n s → (ts : Steps s s') → count_steps ts ≤ 88
stops {n} {s} r ts =
    omega (arith, Steps-bound ts (Reach-OnePending r), rank_bound s (Reach-OnePending r))
