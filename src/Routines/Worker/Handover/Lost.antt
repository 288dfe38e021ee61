-- ===== src/Routines/Worker/Handover/Lost.antt =====
-- A task that is lost, and one that runs twice.
use mcmp.Common.{ℕ, ◌≡◌, refl, true, false, Option, none, some, List, [], ◌∷◌}
use mcmp.Routines.Worker.Handover.{
  System, waiting, resting, worker_step, executor_step, Moves, here, works, beats, started,
}

-- The executor moves whenever it likes.
abbrev pub Always : System → Type 0
Always s = Unit

-- One step of either thread, with no exchange disturbed.
data Choice : Type 0 where
  w : Choice
  e : (reply : Option ℕ) → Choice

abbrev chosen : Choice → System → System
chosen w s = worker_step true s
chosen (e reply) s = executor_step true reply s

play : List Choice → System → System
play [] s = s
play (choice ∷ choices) s = play choices (chosen choice s)

play-Moves :
    (choices : List Choice) {s : System}
    → Moves Always started s
    → Moves Always started (play choices s)
unfolding play
play-Moves [] moves = moves
play-Moves (w ∷ choices) moves = play-Moves choices (works moves true)
play-Moves (e reply ∷ choices) moves = play-Moves choices (beats moves tt true reply)

module _ (a b c : ℕ) where
  -- The worker is given `a`, and pinged again by the next beat, since it has woken up and not set its
  -- bit yet. It runs `a`, wakes up for the second ping, and the executor, which has seen its bit clear,
  -- gives it `b` while it runs `a` again; then it marks itself as finished, and is given `c`.
  abbrev schedule : List Choice
  schedule =
      e none
      ∷ e none
      ∷ e none
      ∷ e (some a)
      ∷ e none
      ∷ e none
      ∷ w
      ∷ e none
      ∷ e none
      ∷ e none
      ∷ w
      ∷ w
      ∷ w
      ∷ w
      ∷ w
      ∷ e none
      ∷ e none
      ∷ e none
      ∷ w
      ∷ w
      ∷ e (some b)
      ∷ e none
      ∷ w
      ∷ e none
      ∷ w
      ∷ e none
      ∷ e none
      ∷ e none
      ∷ e (some c)
      ∷ e none
      ∷ e none
      ∷ w
      ∷ w
      ∷ w
      ∷ w
      ∷ w
      ∷ []

  -- Whatever three tasks a worker is given, the steps of the beats and of its thread can fall so that
  -- it runs the first one twice and the second one never: in the end both threads are at rest, the
  -- worker is marked as finished, no ping is pending and its bit is clear.
  pub loses_and_repeats :
      (s : System) × Moves Always started s
      × (s.given ≡ a ∷ b ∷ c ∷ [])
      × (s.ran ≡ a ∷ a ∷ c ∷ [])
      × ((s.worker ≡ waiting) × (s.executor ≡ resting))
      × ((s.finished ≡ true) × (s.pending ≡ false) × (s.bit ≡ false))
  unfolding play worker_step executor_step
  loses_and_repeats = (
    play schedule started,
    play-Moves schedule here,
    refl,
    refl,
    (refl, refl),
    (refl, refl, refl),
  )
