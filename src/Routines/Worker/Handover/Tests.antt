-- ===== src/Routines/Worker/Handover/Tests.antt =====
-- A worker that is given one task and runs it.
use mcmp.Common.{◌≡◌, refl, true, false, none, some, [], ◌∷◌}
use mcmp.Routines.Worker.Handover.{
  System, waiting, resting, Moves, here, works, beats, started, worker_step, executor_step,
}
use mcmp.Routines.Worker.Handover.Lost.{Always, loses_and_repeats}
use mcmp.Routines.Worker.Handover.Safety.{IsPatient, Once, tasks_run}

-- A beat that gives task 7, and the steps of the worker.
one_task : (s : System) × Moves IsPatient started s × (s.given ≡ 7 ∷ []) × (s.ran ≡ 7 ∷ [])
unfolding worker_step executor_step
one_task =
    let seen : Moves IsPatient started _ =
      beats (beats here (λ e f. cc) true none) (λ e f. cc) true none in
    let given : Moves IsPatient started _ =
      beats (beats seen (λ e f. cc) true none) (λ e f. cc) true (some 7) in
    let pinged : Moves IsPatient started _ =
      beats (beats given (λ e f. cc) true none) (λ e f. cc) true none in
    let entered : Moves IsPatient started _ = works (works pinged true) true in
    let cleaned : Moves IsPatient started _ = works (works entered true) true in
    (_, works cleaned true, refl, refl)

tasks_run_example :
    Once one_task.0
    × (one_task.0.executor ≡ resting
        → one_task.0.finished ≡ true
        → one_task.0.given ≡ one_task.0.ran)
tasks_run_example = tasks_run one_task.1

loses_and_repeats_example :
    (s : System) × Moves Always started s
    × (s.given ≡ 4 ∷ 5 ∷ 6 ∷ [])
    × (s.ran ≡ 4 ∷ 4 ∷ 6 ∷ [])
    × ((s.worker ≡ waiting) × (s.executor ≡ resting))
    × ((s.finished ≡ true) × (s.pending ≡ false) × (s.bit ≡ false))
loses_and_repeats_example = loses_and_repeats 4 5 6
