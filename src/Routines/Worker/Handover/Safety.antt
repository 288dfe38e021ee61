-- ===== src/Routines/Worker/Handover/Safety.antt =====
-- What the worker runs, if no ping overtakes it.
use mathlib.Core.Path.{subst}
use mcmp.Common.{
  ℕ, ◌≡◌, refl, sym, ap, ◌⊎◌, inl, inr, arith, Bool, true, false, Option, none, some, List, [], ◌∷◌,
  ◌++◌, if◌then◌else◌,
}
use mcmp.Routines.Worker.Handover.{
  WorkerPc, waiting, woken, entered, working, cleaning, ExecutorPc, resting, sweeping, zombie,
  clearing, scanning, visiting, taking, handing, pinging, System, worker_turn, worker_step,
  executor_turn, executor_step, Moves, here, works, beats, started,
}

-- A beat pings the worker again only where its thread waits and has no ping pending.
abbrev pub IsPatient : System → Type 0
IsPatient s =
    s.executor ≡ visiting → s.finished ≡ false → (s.pending ≡ false) × (s.worker ≡ waiting)

-- The worker has run what it was given, or all but the task that it has now.
abbrev Done : (given ran : List ℕ) → Type 0
Done given ran = given ≡ ran

abbrev Due : (given ran : List ℕ) → ℕ → Type 0
Due given ran task = given ≡ ran ++ (task ∷ [])

-- By where the worker is, `finished` and whether a ping is pending.
abbrev Served : WorkerPc → Bool → Bool → (given ran : List ℕ) → ℕ → Type 0
Served waiting true false given ran task = Done given ran
Served cleaning true false given ran task = Done given ran
Served waiting false pending given ran task = Due given ran task
Served cleaning false pending given ran task = Due given ran task
Served woken false false given ran task = Due given ran task
Served entered false false given ran task = Due given ran task
Served working false false given ran task = Done given ran
Served _ _ _ given ran task = ⊥

-- The executor is about to clear `finished`, and about to ping.
abbrev Handing : WorkerPc → Bool → Bool → (given ran : List ℕ) → ℕ → Type 0
Handing waiting true false given ran task = Due given ran task
Handing cleaning true false given ran task = Due given ran task
Handing _ _ _ given ran task = ⊥

abbrev Pinging : WorkerPc → Bool → Bool → (given ran : List ℕ) → ℕ → Type 0
Pinging waiting false false given ran task = Due given ran task
Pinging cleaning false false given ran task = Due given ran task
Pinging _ _ _ given ran task = ⊥

abbrev Taking : WorkerPc → Bool → Bool → (given ran : List ℕ) → ℕ → Type 0
Taking waiting true false given ran task = Done given ran
Taking cleaning true false given ran task = Done given ran
Taking _ _ _ given ran task = ⊥

abbrev Ok : ExecutorPc → WorkerPc → Bool → Bool → (given ran : List ℕ) → ℕ → Type 0
Ok handing = Handing
Ok pinging = Pinging
Ok taking = Taking
Ok _ = Served

abbrev IsOk : System → Type 0
IsOk s = Ok s.executor s.worker s.finished s.pending s.given s.ran s.taskdata

module _ (failstry : Bool) (task : ℕ) (given ran : List ℕ) where
  abbrev at : ExecutorPc → WorkerPc → (bit finished pending : Bool) → System
  at e w bit finished pending = record {
    bit = bit;
    finished = finished;
    taskdata = task;
    failstry = failstry;
    pending = pending;
    worker = w;
    executor = e;
    given = given;
    ran = ran;
  }

  -- What a step of the worker keeps, whatever the executor is at.
  abbrev WorksAs :
      (WorkerPc → Bool → Bool → (given ran : List ℕ) → ℕ → Type 0)
      → (lucky : Bool) → ExecutorPc
      → WorkerPc
      → (bit finished pending : Bool) → Type 0
  WorksAs P lucky e w bit finished pending =
      let s = worker_turn lucky (at e w bit finished pending) w in
      P s.worker s.finished s.pending s.given s.ran s.taskdata

  works-Served :
      (lucky : Bool) (e : ExecutorPc) (w : WorkerPc) (bit finished pending : Bool)
      → Served w finished pending given ran task
      → WorksAs Served lucky e w bit finished pending
  works-Served lucky e waiting bit true false h = h
  works-Served lucky e waiting bit false true h = h
  works-Served lucky e waiting bit false false h = h
  works-Served true e cleaning bit true false h = h
  works-Served false e cleaning bit true false h = h
  works-Served true e cleaning bit false pending h = h
  works-Served false e cleaning bit false pending h = h
  works-Served lucky e woken true false false h = h
  works-Served true e woken false false false h = h
  works-Served false e woken false false false h = h
  works-Served lucky e entered bit false false h = h
  works-Served lucky e working bit false false h = h
  works-Served lucky e w bit finished pending h = absurd h

  works-Handing :
      (lucky : Bool) (e : ExecutorPc) (w : WorkerPc) (bit finished pending : Bool)
      → Handing w finished pending given ran task
      → WorksAs Handing lucky e w bit finished pending
  works-Handing lucky e waiting bit true false h = h
  works-Handing true e cleaning bit true false h = h
  works-Handing false e cleaning bit true false h = h
  works-Handing lucky e w bit finished pending h = absurd h

  works-Pinging :
      (lucky : Bool) (e : ExecutorPc) (w : WorkerPc) (bit finished pending : Bool)
      → Pinging w finished pending given ran task
      → WorksAs Pinging lucky e w bit finished pending
  works-Pinging lucky e waiting bit false false h = h
  works-Pinging true e cleaning bit false false h = h
  works-Pinging false e cleaning bit false false h = h
  works-Pinging lucky e w bit finished pending h = absurd h

  works-Taking :
      (lucky : Bool) (e : ExecutorPc) (w : WorkerPc) (bit finished pending : Bool)
      → Taking w finished pending given ran task
      → WorksAs Taking lucky e w bit finished pending
  works-Taking lucky e waiting bit true false h = h
  works-Taking true e cleaning bit true false h = h
  works-Taking false e cleaning bit true false h = h
  works-Taking lucky e w bit finished pending h = absurd h

  works-Ok :
      (lucky : Bool) (e : ExecutorPc) (w : WorkerPc) (bit finished pending : Bool)
      → Ok e w finished pending given ran task
      → WorksAs (Ok e) lucky e w bit finished pending
  works-Ok lucky handing w bit finished pending h =
      works-Handing lucky handing w bit finished pending h
  works-Ok lucky pinging w bit finished pending h =
      works-Pinging lucky pinging w bit finished pending h
  works-Ok lucky taking w bit finished pending h =
      works-Taking lucky taking w bit finished pending h
  works-Ok lucky e w bit finished pending h = works-Served lucky e w bit finished pending h

  -- A step of the executor.
  beats-Ok :
      (lucky : Bool) (reply : Option ℕ) (e : ExecutorPc) (w : WorkerPc)
      (bit finished pending : Bool)
      → IsPatient (at e w bit finished pending)
      → Ok e w finished pending given ran task
      → IsOk (executor_turn lucky reply (at e w bit finished pending) e)
  beats-Ok lucky reply resting w bit finished pending patient h = by_failstry failstry
    where
      by_failstry :
          (b : Bool)
          → IsOk (
              if b
              then record (at resting w bit finished pending) {
                failstry = false;
                executor = sweeping;
              }
              else record (at resting w bit finished pending) { executor = scanning })
      by_failstry true = h
      by_failstry false = h
  beats-Ok lucky reply sweeping w true finished pending patient h = h
  beats-Ok lucky reply sweeping w false finished pending patient h = h
  beats-Ok lucky reply zombie w bit true pending patient h = h
  beats-Ok lucky reply zombie w bit false pending patient h = h
  beats-Ok true reply clearing w bit finished pending patient h = h
  beats-Ok false reply clearing w bit finished pending patient h = h
  beats-Ok lucky reply scanning w true finished pending patient h = h
  beats-Ok lucky reply scanning w false finished pending patient h = h
  beats-Ok lucky reply visiting waiting bit true false patient h = h
  beats-Ok lucky reply visiting cleaning bit true false patient h = h
  beats-Ok lucky reply visiting waiting bit false pending patient h = h
  beats-Ok lucky reply visiting cleaning bit false pending patient h = h
  beats-Ok lucky reply visiting w bit false false patient h =
      let (calm, rests) = patient refl refl in cc
  beats-Ok lucky none taking waiting bit true false patient h = h
  beats-Ok lucky none taking cleaning bit true false patient h = h
  beats-Ok lucky (some t) taking waiting bit true false patient h = ap (λ l. l ++ (t ∷ [])) h
  beats-Ok lucky (some t) taking cleaning bit true false patient h = ap (λ l. l ++ (t ∷ [])) h
  beats-Ok lucky reply handing waiting bit true false patient h = h
  beats-Ok lucky reply handing cleaning bit true false patient h = h
  beats-Ok lucky reply pinging waiting bit false false patient h = h
  beats-Ok lucky reply pinging cleaning bit false false patient h = h
  beats-Ok lucky reply e w bit finished pending patient h = absurd h

keeps_executor :
    (lucky : Bool) (s : System) (w : WorkerPc) → (worker_turn lucky s w).executor ≡ s.executor
keeps_executor lucky s waiting = ground arith
keeps_executor lucky s woken = ground arith
keeps_executor lucky s entered = refl
keeps_executor lucky s working = refl
keeps_executor lucky s cleaning = ground arith

worker_step-IsOk : (lucky : Bool) (s : System) → IsOk s → IsOk (worker_step lucky s)
unfolding worker_step
worker_step-IsOk lucky s h =
    let after = worker_turn lucky s s.worker in
    subst
      (λ (e : ExecutorPc).
        Ok e after.worker after.finished after.pending after.given after.ran after.taskdata)
      (sym (keeps_executor lucky s s.worker))
      (works-Ok s.failstry s.taskdata s.given s.ran lucky s.executor s.worker s.bit s.finished
        s.pending h)

executor_step-IsOk :
    (lucky : Bool) (reply : Option ℕ) (s : System)
    → IsPatient s
    → IsOk s
    → IsOk (executor_step lucky reply s)
unfolding executor_step
executor_step-IsOk lucky reply s patient h =
    beats-Ok s.failstry s.taskdata s.given s.ran lucky reply s.executor s.worker s.bit s.finished
      s.pending patient h

Moves-IsOk : {s : System} → Moves IsPatient started s → IsOk s
Moves-IsOk here = refl
Moves-IsOk (works {s = s} moves lucky) = worker_step-IsOk lucky s (Moves-IsOk moves)
Moves-IsOk (beats {s = s} moves patient lucky reply) =
    executor_step-IsOk lucky reply s patient (Moves-IsOk moves)

abbrev pub Once : System → Type 0
Once s = (s.given ≡ s.ran) ⊎ (s.given ≡ s.ran ++ (s.taskdata ∷ []))

module _ (given ran : List ℕ) (task : ℕ) where
  Served-once :
      (w : WorkerPc) (finished pending : Bool)
      → Served w finished pending given ran task
      → (Done given ran ⊎ Due given ran task) × (finished ≡ true → Done given ran)
  Served-once waiting true false h = (inl h, λ _. h)
  Served-once cleaning true false h = (inl h, λ _. h)
  Served-once waiting false pending h = (inr h, λ e. cc)
  Served-once cleaning false pending h = (inr h, λ e. cc)
  Served-once woken false false h = (inr h, λ e. cc)
  Served-once entered false false h = (inr h, λ e. cc)
  Served-once working false false h = (inl h, λ e. cc)
  Served-once w finished pending h = absurd h

  Ok-once :
      (e : ExecutorPc) (w : WorkerPc) (finished pending : Bool)
      → Ok e w finished pending given ran task
      → (Done given ran ⊎ Due given ran task) × (e ≡ resting → finished ≡ true → Done given ran)
  Ok-once handing waiting true false h = (inr h, λ e. cc)
  Ok-once handing cleaning true false h = (inr h, λ e. cc)
  Ok-once handing w finished pending h = absurd h
  Ok-once pinging waiting false false h = (inr h, λ e. cc)
  Ok-once pinging cleaning false false h = (inr h, λ e. cc)
  Ok-once pinging w finished pending h = absurd h
  Ok-once taking waiting true false h = (inl h, λ e. cc)
  Ok-once taking cleaning true false h = (inl h, λ e. cc)
  Ok-once taking w finished pending h = absurd h
  Ok-once e w finished pending h =
      let (once, done) = Served-once w finished pending h in (once, λ _. done)

-- However the beats and the worker's thread interleave, and whichever of their exchanges fail, the
-- worker runs each task that it was given once, in order, except that the one it has now may be still
-- to run; and it has run all of them where no beat is under way and it is marked as finished. A beat
-- may ping it again only while it waits with no ping pending.
pub tasks_run :
    {s : System}
    → Moves IsPatient started s
    → Once s × (s.executor ≡ resting → s.finished ≡ true → s.given ≡ s.ran)
tasks_run {s} moves =
    Ok-once s.given s.ran s.taskdata s.executor s.worker s.finished s.pending (Moves-IsOk moves)
