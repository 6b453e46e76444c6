-- ===== src/Luke/Controller/Invariant.antt =====
-- The presses that are not yet posted, and the one pending send that takes care of them.
use riot_playground.Common.{
  ℕ, ◌+◌, ◌≤◌, ◌<◌, ◌≡◌, refl, List, [], ◌∷◌, Bool, true, ltb, if◌then◌else◌, u32, arith,
}
use riot_playground.Luke.Controller.{
  Client, waiting, received, took, scheduling, posting, Controller, enable_button,
  increment_counter, take_counter, fetch_sub, schedule, post, Step, timer, receive, take, subtract,
  reschedule, send, Reach, boot, press, debounced, next,
}

-- The points that `_client` has taken and not yet posted.
abbrev pub in_hand : Client → ℕ
in_hand waiting = 0
in_hand received = 0
in_hand (took c) = c
in_hand (scheduling c) = c
in_hand (posting c) = c

abbrev client_sends : Client → ℕ
client_sends waiting = 0
client_sends received = 1
client_sends (took c) = 1
client_sends (scheduling c) = 1
client_sends (posting c) = 0

-- The sends that are pending: by the timer, in the queue, or in `_client`.
abbrev pub pending : Controller → ℕ
pending s = (if s.timer_armed then 1 else 0) + s.queued + client_sends s.client

abbrev just_pressed : Client → ℕ → Bool
just_pressed (took c) n = ltb 1 n
just_pressed c n = true

abbrev pub total : List ℕ → ℕ
total [] = 0
total (c ∷ cs) = c + total cs

-- One send is pending as long as sends remain, and none otherwise; counted presses have sends
-- that remain.
pub record OnePending (s : Controller) : Type 0 where
  pub at_most : s.sends_remaining ≤ 10
  pub one_pending : pending s ≡ (if ltb 0 s.sends_remaining then 1 else 0)
  pub counted : 0 < s.counter → 0 < s.sends_remaining
  pub last_chance : 0 < s.counter → just_pressed s.client s.sends_remaining ≡ true

increment_counter-OnePending : (s : Controller) → OnePending s → OnePending (increment_counter s)
unfolding increment_counter
increment_counter-OnePending s v = ground arith

take_counter-OnePending :
    (s : Controller) → s.client ≡ received → OnePending s → OnePending (take_counter s)
unfolding take_counter
take_counter-OnePending s e v = ground arith

fetch_sub-OnePending :
    (c : ℕ) (s : Controller) → s.client ≡ took c → OnePending s → OnePending (fetch_sub c s)
unfolding fetch_sub
fetch_sub-OnePending c s e v = ground arith

schedule-OnePending :
    (c : ℕ) (s : Controller) → s.client ≡ scheduling c → OnePending s → OnePending (schedule c s)
unfolding schedule
schedule-OnePending c s e v = ground arith

post-OnePending :
    (c : ℕ) (s : Controller) → s.client ≡ posting c → OnePending s → OnePending (post c s)
unfolding post
post-OnePending c s e v = ground arith

pub Step-OnePending : {s s' : Controller} → Step s s' → OnePending s → OnePending s'
Step-OnePending {s} (timer e) v = ground arith
Step-OnePending {s} (receive e h) v = ground arith
Step-OnePending {s} (take e) v = take_counter-OnePending s e v
Step-OnePending {s} (subtract c e) v = fetch_sub-OnePending c s e v
Step-OnePending {s} (reschedule c e) v = schedule-OnePending c s e v
Step-OnePending {s} (send c e) v = post-OnePending c s e v

enable_button-OnePending : (s : Controller) → OnePending s → OnePending (enable_button s)
unfolding enable_button
enable_button-OnePending s v = ground arith

-- In every run: at most 10 sends remain, and never does their number wrap below 0; one send is
-- pending (by the timer, in the queue or in `_client`) as long as sends remain, and none
-- otherwise, so the queue of one message is long enough; and while presses are counted that no
-- send has taken, sends remain.
pub Reach-OnePending : {n : ℕ} {s : Controller} → Reach n s → OnePending s
Reach-OnePending boot = record {
  at_most = omega arith;
  one_pending = refl;
  counted = λ h. h;
  last_chance = λ h. refl;
}
Reach-OnePending (press {n} {s} r e) = increment_counter-OnePending s (Reach-OnePending r)
Reach-OnePending (debounced {n} {s} r) = enable_button-OnePending s (Reach-OnePending r)
Reach-OnePending (next r t) = Step-OnePending t (Reach-OnePending r)

-- The presses that are counted, in hand or posted.
abbrev pub accounted : Controller → ℕ
accounted s = s.counter + (in_hand s.client + total s.posted)

pub Step-accounted : {s s' : Controller} → Step s s' → accounted s' ≡ accounted s
unfolding take_counter fetch_sub schedule post
Step-accounted {s} (timer e) = refl
Step-accounted {s} (receive e h) = rw e refl
Step-accounted {s} (take e) = ground arith
Step-accounted {s} (subtract c e) = ground arith
Step-accounted {s} (reschedule c e) = ground arith
Step-accounted {s} (send c e) = ground arith

press_accounted : (s : Controller) → u32 (accounted (increment_counter s)) ≡ u32 (accounted s + 1)
unfolding increment_counter
press_accounted s = ground arith

-- In every run the presses that are counted, those that `_client` has in hand and the numbers that
-- `post_points_to_target` was called with add up to the presses of the button, modulo 2 ^ 32.
pub Reach-accounted : {n : ℕ} {s : Controller} → Reach n s → u32 (accounted s) ≡ u32 n
unfolding enable_button
Reach-accounted boot = refl
Reach-accounted (press {n} {s} r e) = omega (arith, press_accounted s, Reach-accounted r)
Reach-accounted (debounced r) = Reach-accounted r
Reach-accounted (next r t) = rw (Step-accounted t) (Reach-accounted r)
