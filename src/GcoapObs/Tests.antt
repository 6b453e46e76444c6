-- ===== src/GcoapObs/Tests.antt =====
-- A pause at concrete runs.
use riot_playground.Common.{◌≡◌, refl, inr, true, false}
use riot_playground.GcoapObs.{
  Cli, initial, outside, inside, pause_test, pause_lock, pause_flip, handle_test, handle_clear,
  handle_unlock, Step, Reach, here, next, pause, pause_takes, pause_ends,
}
use riot_playground.GcoapObs.Pausing.{AtRest, paused_quiet, request_resumes, overlap_breaks_pause}

-- After the command `pause`.
abbrev paused : Cli
paused = pause_flip (pause_lock (pause_test initial))

paused_reach : Reach false initial paused
unfolding pause_test pause_lock pause_flip
paused_reach =
    next (next (next here (pause refl (inr refl))) (pause_takes refl refl)) (pause_ends refl)

paused_rests : AtRest paused
unfolding pause_test pause_lock pause_flip
paused_rests = (refl, refl)

paused_locked : paused.locked ≡ true
unfolding pause_test pause_lock pause_flip
paused_locked = refl

paused_quiet_example :
    (paused.locked ≡ true
      → (paused.taken ≡ true)
        × (paused.generator ≡ outside)
        × ((d : Cli) → Step false paused d → d.notified ≡ paused.notified))
    × (paused.locked ≡ false → paused.taken ≡ true → paused.generator ≡ inside)
paused_quiet_example = paused_quiet paused_reach paused_rests

request_resumes_run :
    let d = handle_unlock (handle_clear (handle_test paused)) in
    Reach false paused d × (d.locked ≡ false) × (d.taken ≡ false) × AtRest d
request_resumes_run = request_resumes paused paused_rests paused_locked

overlap_breaks_pause_example :
    (d : Cli) × Reach true paused d × AtRest d × (d.locked ≡ true) × (d.taken ≡ false)
overlap_breaks_pause_example = overlap_breaks_pause paused paused_rests paused_locked
