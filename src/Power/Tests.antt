-- ===== src/Power/Tests.antt =====
-- The measurement at concrete inputs.
use riot_playground.Common.{
  ℕ, ◌%◌, ◌≡◌, refl, [], Bool, false, leb, ◌==◌, arith, length-replicate, codes,
}
use riot_playground.Power.{text, Sender, send_loop, started}
use riot_playground.Power.Window.{deliver, receive_all, measurement_window}

-- Every tenth packet arrives.
abbrev keep : ℕ → Bool
keep i = i % 10 == 0

abbrev sender : Sender
sender = record { sender_leds = false; sent = [] }

text_7 : text 7 ≡ codes "07 Msg buffer w/20b"
unfolding text
text_7 = refl

measurement_window_example :
    let s' = send_loop 57 0 sender in
    ((receive_all (deliver keep s'.sent) started).leds ≡ (57 == 101))
    × (s'.sender_leds ≡ leb 100 57)
measurement_window_example =
    measurement_window keep 57 sender started (omega arith) (omega arith) refl refl
      (length-replicate {A = ℕ} 21 0) refl refl
