-- ===== src/Wand/Reach.antt =====
-- The wand under any sequence of interrupts: edges on the two buttons run the callback that is
-- registered last, and the timer may fire on any channel at any moment. A handler runs to its end.
use riot_playground.Common.{ℕ, ◌≡◌, [], Option, some}
use mathlib.Core.Path.{subst, sym}
use riot_playground.Wand.Hardware.{Pin, btn_light, btn_time, Edge, Handler}
use riot_playground.Wand.Board.{Board, callback_from, callback_from_lem}
use riot_playground.Wand.State.{Wand, Inputs}
use riot_playground.Wand.Modes.{timeout, run_handler, main}
use riot_playground.Wand.Invariant.{
  Inv, IsClock, Callbacks, run_light-Inv, run_time-Inv, timeout-Inv, main-Inv,
}

pub data Step (callback : Callbacks) (w : Wand) : Wand → Type 0 where
  light_edge :
      (e : Edge) (h : Handler) (inp : Inputs)
      → IsClock inp.rtc
      → callback w.calls btn_light ≡ some (e, h)
      → Step callback w (run_handler h inp w)
  time_edge :
      (e : Edge) (h : Handler) (inp : Inputs)
      → IsClock inp.rtc
      → callback w.calls btn_time ≡ some (e, h)
      → Step callback w (run_handler h inp w)
  alarm : (channel : ℕ) (inp : Inputs) → Step callback w (timeout channel inp w)

pub data Reach (callback : Callbacks) : Wand → Type 0 where
  start : Reach callback main
  next : {w w' : Wand} → Reach callback w → Step callback w w' → Reach callback w'

Step-Inv :
    (f : Pin → Option (Edge × Handler)) {w w' : Wand}
    → Step (callback_from f) w w'
    → Inv (callback_from f) w
    → Inv (callback_from f) w'
Step-Inv f {w} (light_edge e h inp c r) v = run_light-Inv f h inp w c (rw r at v.light_ok) v
Step-Inv f {w} (time_edge e h inp c r) v = run_time-Inv f h inp w c (rw r at v.time_ok) v
Step-Inv f {w} (alarm channel inp) v = timeout-Inv f channel inp w v

Reach_from-Inv :
    (f : Pin → Option (Edge × Handler)) {w : Wand}
    → Reach (callback_from f) w
    → Inv (callback_from f) w
Reach_from-Inv f start = main-Inv f
Reach_from-Inv f (next r s) = Step-Inv f s (Reach_from-Inv f r)

-- In every state that edges on the buttons and alarms of the timer lead to from `main`, with the
-- clock in its documented ranges: the hour is at most 12 and the half quarter below 8, both
-- buttons have a callback of the mode that the wand is in (so no handler of "set time mode" runs
-- in normal mode, nor the other way round), and the LEDs blink in "set time mode" only.
pub Reach-Inv : (B : Board) {w : Wand} → Reach B.callback w → Inv B.callback w
Reach-Inv B {w} =
    subst (λ cb. Reach cb w → Inv cb w) (sym (callback_from_lem B)) (Reach_from-Inv (B.callback []))
