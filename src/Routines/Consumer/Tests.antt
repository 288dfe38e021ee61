-- ===== src/Routines/Consumer/Tests.antt =====
-- A consumer that takes an item after a signal and loses one as it is stopped.
use mcmp.Common.{◌≡◌, refl, true, false, List, [], ◌∷◌}
use mcmp.Routines.SignalRoutine.{signalled}
use mcmp.Routines.Consumer.{
  taked, nothing, Round, takes, hands_over, inner, consumer_loop, Poll, pool_loop,
}
use mcmp.Routines.Consumer.Laws.{
  taken, handed_over, offered, kept, LosesAtMostLast, consumer_loop_lem,
}

abbrev rounds : List Round
rounds =
    record {
      first = nothing;
      turns = record { waited = signalled; running = true; key = nothing } ∷ [];
      running = true;
      second = taked 4;
      stays = true;
    }
    ∷ record { first = taked 5; turns = []; running = false; second = nothing; stays = false }
    ∷ []

trace : consumer_loop true rounds ≡ takes 4 ∷ hands_over 4 ∷ takes 5 ∷ []
unfolding consumer_loop inner
trace = refl

consumer_loop_lem_example :
    (taken (consumer_loop true rounds) ≡ offered true rounds)
    × (handed_over (consumer_loop true rounds) ≡ kept true rounds)
    × LosesAtMostLast (consumer_loop true rounds)
consumer_loop_lem_example = consumer_loop_lem true rounds

offers_and_keeps : (offered true rounds ≡ 4 ∷ 5 ∷ []) × (kept true rounds ≡ 4 ∷ [])
offers_and_keeps = (refl, refl)

abbrev polls : List Poll
polls =
    record { key = nothing; stays = false }
    ∷ record { key = taked 6; stays = true }
    ∷ record { key = taked 7; stays = false }
    ∷ []

pool_trace : pool_loop true polls ≡ takes 6 ∷ hands_over 6 ∷ takes 7 ∷ hands_over 7 ∷ []
unfolding pool_loop
pool_trace = refl
