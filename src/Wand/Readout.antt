-- ===== src/Wand/Readout.antt =====
-- What the user of the wand sees: the time, the blinking, the battery and the light.
use riot_playground.Common.{
  ℕ, ◌+◌, ◌*◌, ◌/◌, ◌%◌, ◌<◌, ◌≡◌, ◌∙◌, ap, [], not, ◌&&◌, ◌||◌, arith, if◌then◌else◌,
}
use riot_playground.Wand.Board.{Board, level_from_lem}
use riot_playground.Wand.State.{Wand, Inputs}
use riot_playground.Wand.Display.{is_current, time_encode}
use riot_playground.Wand.Clock.{hour_of, quarter_of}
use riot_playground.Wand.Encode.{bit, shown_hour, quarter_led, bit-time_encode}
use riot_playground.Wand.Levels.{time_led, level-show_from_dark, level-show_toggle}
use riot_playground.Wand.Invariant.{IsClock}
use riot_playground.Wand.Modes.{btn_time_push, blink}

shown_hour-hour_of :
    (h : ℕ) → h < 24 → (shown_hour (hour_of h) ≡ shown_hour (h % 12)) × (hour_of h < 16)
unfolding hour_of
shown_hour-hour_of h p = ground arith

quarter_of_lem : (m : ℕ) → m < 60 → (quarter_of m ≡ m * 2 / 15) × (m * 2 / 15 < 8)
unfolding quarter_of
quarter_of_lem m p = omega arith

-- Pushing the time button at `tm_hour`:`tm_min` lights minute LED `k` exactly if the comment on
-- `_time_encode` says so of the half quarter that the minute lies in, and hour LED `k` exactly if
-- bit `k` of the hour on a dial of twelve is set.
pub btn_time_push_shows_time :
    (B : Board) (inp : Inputs) (w : Wand) (k : ℕ)
    → IsClock inp.rtc
    → k < 4
    → let cs = (btn_time_push inp w).calls in
      (B.level cs (time_led k) ≡ quarter_led (inp.rtc.tm_min * 2 / 15) k)
      × (B.level cs (time_led (k + 4)) ≡ bit (shown_hour (inp.rtc.tm_hour % 12)) k)
unfolding btn_time_push
btn_time_push_shows_time B inp w k c h =
    let (hour, small) = shown_hour-hour_of inp.rtc.tm_hour c.hour_in_day in
    let (quarter, little) = quarter_of_lem inp.rtc.tm_min c.min_in_hour in
    let mask = time_encode (hour_of inp.rtc.tm_hour) (quarter_of inp.rtc.tm_min) in
    let (low, high) =
      bit-time_encode (hour_of inp.rtc.tm_hour) (quarter_of inp.rtc.tm_min) k small
        (rw quarter little) h in
    let dark = level-show_from_dark B.initial (B.level []) w.set_time_mode mask w in
    rw (level_from_lem B) (
      dark k (omega arith) ∙ low ∙ ap (λ q. quarter_led q k) quarter,
      dark (k + 4) (omega arith) ∙ high ∙ ap (λ n. bit n k) hour,
    )

-- Each half period toggles the LEDs that are lit in the mask and belong to the part of the time
-- that is being set, keeps the other lit LEDs on, and touches no other LED.
pub blink_lem :
    (B : Board) (w : Wand) (k : ℕ)
    → k < 8
    → let lit = bit (time_encode w.cur_hour w.cur_quarter) k in
      let before = B.level w.calls (time_led k) in
      B.level (blink w).calls (time_led k)
      ≡ (if lit && is_current w.set_time_mode k then not before else lit || before)
unfolding blink
blink_lem B w k h = rw (level_from_lem B) (
    level-show_toggle B.initial (B.level []) w.set_time_mode (time_encode w.cur_hour w.cur_quarter)
      k w.calls h)
