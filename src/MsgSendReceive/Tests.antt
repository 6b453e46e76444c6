-- ===== src/MsgSendReceive/Tests.antt =====
-- The exchange of the threads at concrete runs.
use riot_playground.Common.{◌≡◌, refl, some}
use riot_playground.MsgSendReceive.{
  Threads, Step, first, second, initial, deliver, increment_request, increment_response, reply,
  print_response, send, count_request, count_response, answer, print, Reach, start, next,
}
use riot_playground.MsgSendReceive.Counting.{pairs, printed-Reach, exchange_goes_on}

abbrev exchanged : Threads
exchanged =
    print_response (some second)
      (reply (increment_response (increment_request first (deliver initial))))

exchange : Reach 5 exchanged
unfolding deliver increment_request increment_response reply
exchange =
    next
      (next
        (next (next (next start (send refl refl)) (count_request first refl))
          (count_response first refl))
        (answer refl refl))
      (print (some second) refl)

printed-Reach_example : (exchanged.printed ≡ pairs 1) × (exchanged.nulls ≡ 0)
printed-Reach_example = printed-Reach exchange

exchange_goes_on_example : (u : Threads) × Step exchanged u
exchange_goes_on_example = exchange_goes_on exchange
