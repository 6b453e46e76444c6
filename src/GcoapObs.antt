-- ===== src/GcoapObs.antt =====
-- gcoap_obs_test/gcoap_cli.c: a thread notifies the observers of /test every second, the command
-- `pause` stops and resumes it, and a GET on /test resumes it. They share a flag and a mutex, and
-- run in three threads, which may be interleaved at each access to these. RIOT's mutex is free or
-- taken, whoever took it: `mutex_lock` waits until it is free, `mutex_unlock` frees it. Printing is
-- not modelled.
pub mod Pausing
mod Tests
use riot_playground.Common.{ℕ, ◌+◌, ◌≡◌, ◌⊎◌, List, Bool, true, false, not, if◌then◌else◌, codes}

-- Where `_data_gen` stands: asleep, or before `mutex_lock`, which is the same here; and inside.
pub data Generator : Type 0 where
  outside inside : Generator

-- Where `pause_gen` stands: not called; after the test of `locked`; before `locked = !locked`.
pub data Command : Type 0 where
  at_prompt locks unlocks flips : Command

-- Where `_handle_test` stands: not called; after the test of `locked`, if it holds; after
-- `locked = false`.
pub data Handler : Type 0 where
  resting clears frees : Handler

-- What `gcoap_obs_init` returns.
pub data ObsInit : Type 0 where
  init_ok init_unused init_err : ObsInit

-- `notified` counts the calls of `gcoap_obs_send`.
pub record Cli : Type 0 where
  pub locked : Bool
  pub taken : Bool
  pub generator : Generator
  pub command : Command
  pub handler : Handler
  pub notified : ℕ

abbrev pub initial : Cli
initial = record {
  locked = false;
  taken = false;
  generator = outside;
  command = at_prompt;
  handler = resting;
  notified = 0;
}

-- The payload of the responses and of the notifications.
abbrev pub test_payload : List ℕ
test_payload = codes "Test successfull"

unfoldable pub mutex_lock : Cli → Cli
mutex_lock c = record c { taken = true }

unfoldable pub mutex_unlock : Cli → Cli
mutex_unlock c = record c { taken = false }

-- The steps of `pause_gen`.
unfoldable pub pause_test : Cli → Cli
pause_test c = record c { command = if not c.locked then locks else unlocks }

unfoldable pub pause_lock : Cli → Cli
unfolding mutex_lock
pause_lock c = record (mutex_lock c) { command = flips }

unfoldable pub pause_unlock : Cli → Cli
unfolding mutex_unlock
pause_unlock c = record (mutex_unlock c) { command = flips }

unfoldable pub pause_flip : Cli → Cli
pause_flip c = record c { locked = not c.locked; command = at_prompt }

-- The steps of `_handle_test` on the flag and the mutex.
unfoldable pub handle_test : Cli → Cli
handle_test c = record c { handler = if c.locked then clears else resting }

unfoldable pub handle_clear : Cli → Cli
handle_clear c = record c { locked = false; handler = frees }

unfoldable pub handle_unlock : Cli → Cli
unfolding mutex_unlock
handle_unlock c = record (mutex_unlock c) { handler = resting }

-- The steps of `_data_gen`.
unfoldable pub gen_lock : Cli → Cli
unfolding mutex_lock
gen_lock c = record (mutex_lock c) { generator = inside }

unfoldable pub gen_notify : ObsInit → Cli → Cli
gen_notify init_ok c = record c { notified = c.notified + 1 }
gen_notify init_unused c = c
gen_notify init_err c = c

unfoldable pub gen_unlock : Cli → Cli
unfolding mutex_unlock
gen_unlock c = record (mutex_unlock c) { generator = outside }

-- The steps of the three threads. With `overlap`, the command and the handler may run at the same
-- time; without it, neither begins before the other has ended.
pub data Step (overlap : Bool) (c : Cli) : Cli → Type 0 where
  pause :
      c.command ≡ at_prompt
      → (overlap ≡ true) ⊎ (c.handler ≡ resting)
      → Step overlap c (pause_test c)
  pause_takes : c.command ≡ locks → c.taken ≡ false → Step overlap c (pause_lock c)
  pause_frees : c.command ≡ unlocks → Step overlap c (pause_unlock c)
  pause_ends : c.command ≡ flips → Step overlap c (pause_flip c)
  request :
      c.handler ≡ resting
      → (overlap ≡ true) ⊎ (c.command ≡ at_prompt)
      → Step overlap c (handle_test c)
  request_clears : c.handler ≡ clears → Step overlap c (handle_clear c)
  request_ends : c.handler ≡ frees → Step overlap c (handle_unlock c)
  wakes : c.generator ≡ outside → c.taken ≡ false → Step overlap c (gen_lock c)
  notifies : (o : ObsInit) → c.generator ≡ inside → Step overlap c (gen_notify o c)
  sleeps : c.generator ≡ inside → Step overlap c (gen_unlock c)

pub data Reach (overlap : Bool) (start : Cli) : Cli → Type 0 where
  here : Reach overlap start start
  next : {c d : Cli} → Reach overlap start c → Step overlap c d → Reach overlap start d
