-- ===== src/Cli/Laws.antt =====
-- What the loop of the server program calls.
use mcmp.Common.{
  ℕ, suc, ◌+◌, ◌-◌, ◌/◌, ◌%◌, ◌^◌, ◌<◌, ◌≡◌, refl, ap, ◌∙◌, inl, inr, arith, List, [], ◌∷◌, ltb,
  ◌==◌, if◌then◌else◌, Bool-cases, length,
}
use mcmp.Cli.{
  beat_tick, max_events_epoll, interrupted, broken, ready, Turn, Act, beat, process, update, told,
  waited, run_loop,
}

-- The events that the server gets: those of each wait until the program is told to stop, the wait
-- fails, or it has more than there is room for.
unfoldable pub answers : List Turn → List ℕ
answers [] = []
answers (told ∷ turns) = []
answers (waited interrupted ∷ turns) = answers turns
answers (waited broken ∷ turns) = []
answers (waited (ready nfds) ∷ turns) =
    let rest = answers turns in if ltb max_events_epoll nfds then [] else nfds ∷ rest

-- The calls for the answers, from the tick on: the heart beats at each multiple of 150.
abbrev pub calls_for : (beatick : ℕ) → List ℕ → List Act
calls_for beatick [] = []
calls_for beatick (nfds ∷ answered) =
    let calls = process ∷ update nfds ∷ calls_for (beatick + 1) answered in
    if (beatick + 1) % beat_tick == 0 then beat ∷ calls else calls

abbrev pub beats : List Act → ℕ
beats [] = 0
beats (beat ∷ acts) = suc (beats acts)
beats (process ∷ acts) = beats acts
beats (update nfds ∷ acts) = beats acts

run_loop-calls :
    (beatick : ℕ) (turns : List Turn)
    → beatick + length turns < 2 ^ 64
    → (run_loop beatick turns).0 ≡ calls_for beatick (answers turns)
unfolding run_loop answers
run_loop-calls beatick [] h = refl
run_loop-calls beatick (told ∷ turns) h = refl
run_loop-calls beatick (waited interrupted ∷ turns) h = run_loop-calls beatick turns (omega arith)
run_loop-calls beatick (waited broken ∷ turns) h = refl
run_loop-calls beatick (waited (ready nfds) ∷ turns) h =
    elim (Bool-cases (ltb max_events_epoll nfds)) [
      | inl over ↦ rw over refl
      | inr fits ↦
          let next : (beatick + 1) % 2 ^ 64 ≡ beatick + 1 = omega arith in
          let rest = run_loop-calls (beatick + 1) turns (omega arith) in rw (fits, next, rest) refl
    ]

beats-calls_for :
    (beatick : ℕ) (answered : List ℕ)
    → beats (calls_for beatick answered)
      ≡ (beatick + length answered) / beat_tick - beatick / beat_tick
beats-calls_for beatick [] = omega arith
beats-calls_for beatick (nfds ∷ answered) = ground (arith, beats-calls_for (beatick + 1) answered)

-- The loop of the server program. For each answer of epoll_wait, until the program is told to stop, a
-- wait fails, or an answer is too large, it lets the heartbeat drop clients and then hands the events
-- to the server, in order; and it has beaten the heart once for each 150 answers since the start, as
-- long as its count of them does not wrap.
pub run_loop_lem :
    (turns : List Turn)
    → length turns < 2 ^ 64
    → ((run_loop 0 turns).0 ≡ calls_for 0 (answers turns))
      × (beats (run_loop 0 turns).0 ≡ length (answers turns) / beat_tick)
run_loop_lem turns h =
    let calls = run_loop-calls 0 turns (omega arith) in
    (calls, ap beats calls ∙ beats-calls_for 0 (answers turns) ∙ omega arith)
