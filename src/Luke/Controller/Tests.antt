-- ===== src/Luke/Controller/Tests.antt =====
-- The theorems on the controller for one press of the button, up to its first post.
use riot_playground.Common.{◌≤◌, ◌≡◌, refl, false, u32}
use riot_playground.Luke.Controller.{
  Controller, initial, increment_counter, Step, timer, Reach, boot, press,
}
use riot_playground.Luke.Controller.Invariant.{
  OnePending, Reach-OnePending, accounted, Reach-accounted, total,
}
use riot_playground.Luke.Controller.Quiet.{Steps, Quiet, posts_all, stops, go, done, count_steps}

pressed : Reach 1 (increment_counter initial)
pressed = press boot refl

Reach-OnePending_example : OnePending (increment_counter initial)
Reach-OnePending_example = Reach-OnePending pressed

Reach-accounted_example : u32 (accounted (increment_counter initial)) ≡ 1
Reach-accounted_example = Reach-accounted pressed

posts_all_example :
    (s : Controller) × Steps (increment_counter initial) s × Quiet s × (u32 (total s.posted) ≡ 1)
posts_all_example = posts_all pressed

abbrev fired : Controller
fired = record (increment_counter initial) { timer_armed = false; queued = 1 }

fires : Step (increment_counter initial) fired
unfolding increment_counter
fires = timer refl

stops_example : count_steps (go fires done) ≤ 88
stops_example = stops pressed (go fires done)
