-- ===== src/GcoapObs/Pausing.antt =====
-- While the flag is set the generator is stopped, as long as command and handler do not overlap.
use riot_playground.Common.{◌≡◌, refl, inl, inr, Bool, true, false, not, if◌then◌else◌, arith}
use riot_playground.GcoapObs.{
  Generator, outside, inside, Command, at_prompt, locks, unlocks, flips, Handler, resting, clears,
  frees, Cli, initial, pause_test, pause_lock, pause_unlock, pause_flip, handle_test, handle_clear,
  handle_unlock, gen_lock, gen_notify, gen_unlock, Step, pause, pause_takes, pause_frees,
  pause_ends, request, request_clears, request_ends, wakes, notifies, sleeps, Reach, here, next,
}

-- Whether the mutex is taken on behalf of the flag.
abbrev for_pause : Command → Handler → Bool → Bool
for_pause at_prompt resting locked = locked
for_pause at_prompt clears locked = true
for_pause at_prompt frees locked = true
for_pause locks h locked = false
for_pause unlocks h locked = true
for_pause flips h locked = not locked

abbrev is_inside : Generator → Bool
is_inside outside = false
is_inside inside = true

-- The command and the handler do not overlap, and each is where the flag says.
abbrev Apart : Command → Handler → Bool → Type 0
Apart at_prompt resting locked = Unit
Apart at_prompt clears locked = locked ≡ true
Apart at_prompt frees locked = locked ≡ false
Apart locks h locked = (h ≡ resting) × (locked ≡ false)
Apart unlocks h locked = (h ≡ resting) × (locked ≡ true)
Apart flips h locked = h ≡ resting

record Inv (c : Cli) : Type 0 where
  apart : Apart c.command c.handler c.locked
  owner : c.taken ≡ (if for_pause c.command c.handler c.locked then true else is_inside c.generator)
  alone : for_pause c.command c.handler c.locked ≡ true → c.generator ≡ outside

Step-Inv : {c d : Cli} → Step false c d → Inv c → Inv d
unfolding pause_test pause_lock pause_unlock pause_flip handle_test handle_clear handle_unlock
    gen_lock gen_notify gen_unlock
Step-Inv (pause e f) v = ground arith
Step-Inv (pause_takes e f) v = ground arith
Step-Inv (pause_frees e) v = ground arith
Step-Inv (pause_ends e) v = ground arith
Step-Inv (request e f) v = ground arith
Step-Inv (request_clears e) v = ground arith
Step-Inv (request_ends e) v = ground arith
Step-Inv (wakes e f) v = ground arith
Step-Inv (notifies o e) v = ground arith
Step-Inv (sleeps e) v = ground arith

Reach-Inv : {c : Cli} → Reach false initial c → Inv c
Reach-Inv here = record { apart = tt; owner = refl; alone = λ h. absurd (ground arith) }
Reach-Inv (next r s) = Step-Inv s (Reach-Inv r)

-- No command and no request is under way.
abbrev pub AtRest : Cli → Type 0
AtRest c = (c.command ≡ at_prompt) × (c.handler ≡ resting)

paused_Step :
    {c d : Cli} {overlap : Bool}
    → Step overlap c d
    → c.generator ≡ outside
    → c.taken ≡ true
    → d.notified ≡ c.notified
unfolding pause_test pause_lock pause_unlock pause_flip handle_test handle_clear handle_unlock
    gen_lock gen_notify gen_unlock
paused_Step (pause e f) o t = refl
paused_Step (pause_takes e f) o t = refl
paused_Step (pause_frees e) o t = refl
paused_Step (pause_ends e) o t = refl
paused_Step (request e f) o t = refl
paused_Step (request_clears e) o t = refl
paused_Step (request_ends e) o t = refl
paused_Step (wakes e f) o t = refl
paused_Step (notifies i e) o t = ground arith
paused_Step (sleeps e) o t = refl

-- If commands and requests do not overlap, then between them: while the flag is set, the mutex is
-- taken, the generator is outside it, and no step sends a notification; and while the flag is not
-- set, the mutex is taken only by the generator, so that it goes on.
pub paused_quiet :
    {c : Cli}
    → Reach false initial c
    → AtRest c
    → (c.locked ≡ true
        → (c.taken ≡ true)
          × (c.generator ≡ outside)
          × ((d : Cli) → Step false c d → d.notified ≡ c.notified))
      × (c.locked ≡ false → c.taken ≡ true → c.generator ≡ inside)
paused_quiet {c} reach (p, h) =
    let v = Reach-Inv reach in
    let o = rw (p, h) at v.owner in
    let a = rw (p, h) at v.alone in
    (
      (λ l.
          let taken : c.taken ≡ true = ground arith in
          (taken, a l, λ d s. paused_Step s (a l) taken)),
      (λ l t. ground arith),
    )

-- A request ends any pause: its three steps clear the flag and free the mutex.
pub request_resumes :
    (c : Cli)
    → AtRest c
    → c.locked ≡ true
    → let d = handle_unlock (handle_clear (handle_test c)) in
      Reach false c d × (d.locked ≡ false) × (d.taken ≡ false) × AtRest d
unfolding handle_test handle_clear handle_unlock
request_resumes c (p, h) l = (
  next (next (next here (request h (inr p))) (request_clears (ground arith))) (request_ends refl),
  refl,
  refl,
  (p, refl),
)

-- If a request comes between the test of the flag by the command `pause` and its next statement,
-- then from every pause a state is reached, with no command and no request under way, in which the
-- flag says that the generator is paused, while the mutex is free.
pub overlap_breaks_pause :
    (c : Cli)
    → AtRest c
    → c.locked ≡ true
    → (d : Cli) × Reach true c d × AtRest d × (d.locked ≡ true) × (d.taken ≡ false)
unfolding pause_test handle_test handle_clear handle_unlock pause_unlock pause_flip
overlap_breaks_pause c (p, h) l =
    let tested = next here (pause p (inl refl)) in
    let both = next tested (request h (inl refl)) in
    let cleared = next both (request_clears (ground arith)) in
    let freed = next (next cleared (request_ends refl)) (pause_frees (ground arith)) in
    (_, next freed (pause_ends refl), (refl, refl), refl, refl)
