-- ===== src/Routines/Worker/Tasks.antt =====
-- The executor's monitor on a set queue: the tasks that it gives are those of the queue.
use mathlib.Core.Path.{fun_ext}
use mcmp.Common.{
  ℕ, zero, suc, ◌+◌, ◌≡◌, refl, ap, inl, inr, false, Option, none, some, List, [], ◌∷◌, ◌++◌, leb,
  Bool-cases, get_or,
}
use mcmp.Status.{Status, success, isempty, retryop}
use mcmp.Bitmap.Scan.{Scan, found, missing, fault, hung}
use mcmp.Bitmap.Scan.Exact.{IsStored}
use mcmp.SetQueue.{SetQueue, TakePc}
use mcmp.SetQueue.Spec
use mcmp.SetQueue.Holds.{Holds}
use mcmp.SetQueue.Once.{run_take, take_once, run_take-eq-take_once}
use mcmp.SetQueue.TakeOnce.{take_once-Takes}
use mcmp.Routines.Worker.{
  blank, Executor, next_available, Act, ping, give, Beaten, done, crashed, prepend, hand, given,
  beat_loop, enough, beat_after, beat,
}
use mcmp.Routines.Worker.Cleanup.{Cleans, start_cleanup-Cleans}
use mcmp.Routines.Worker.Beat.{IsServed, beat-IsServed}

-- `mcmchSetQueueTake` as the executor calls it; it has returned after nine steps.
abbrev taken_reply : SetQueue × TakePc → SetQueue × Status × Option ℕ
taken_reply (squ, TakePc.done status item) = (squ, status, item)
taken_reply (squ, _) = (squ, retryop, none)

unfoldable pub take_task : SetQueue → SetQueue × Status × Option ℕ
take_task squ = taken_reply (run_take 9 squ TakePc.start)

take_task-eq-take_once : (squ : SetQueue) → take_task squ ≡ take_once squ
unfolding take_task
take_task-eq-take_once squ = rw (run_take-eq-take_once squ) refl

abbrev pub tasks : List Act → List ℕ
tasks [] = []
tasks (ping worker ∷ acts) = tasks acts
tasks (give worker task ∷ acts) = task ∷ tasks acts

-- The tasks given are the first of `q`, and the queue holds the others.
abbrev Hands : List ℕ → Beaten SetQueue → Type 0
Hands q (done acts after) = (rest : List ℕ) × (q ≡ tasks acts ++ rest) × Holds after.queue rest
Hands q crashed = Unit

given_task :
    (ex : Executor SetQueue) (i task : ℕ) (t : SetQueue × Status × Option ℕ)
    (continue : Executor SetQueue → Beaten SetQueue)
    → t.1 ≡ success
    → t.2 ≡ some task
    → given ex i t continue ≡ prepend (give i task) (continue (hand ex i task t.0))
given_task ex i task (squ, status, item) continue p r = rw (p, r) refl

given_nothing :
    (ex : Executor SetQueue) (i : ℕ) (t : SetQueue × Status × Option ℕ)
    (continue : Executor SetQueue → Beaten SetQueue)
    → t.1 ≡ isempty
    → given ex i t continue ≡ done [] (record ex { queue = t.0 })
given_nothing ex i (squ, status, item) continue p = rw p refl

prepend-Hands :
    (q : List ℕ) (i : ℕ) (r : Beaten SetQueue) → Hands q r → Hands q (prepend (ping i) r)
prepend-Hands q i (done acts after) h = h
prepend-Hands q i crashed h = h

prepend_task-Hands :
    (q : List ℕ) (i task : ℕ) (r : Beaten SetQueue)
    → Hands q r
    → Hands (task ∷ q) (prepend (give i task) r)
prepend_task-Hands q i task (done acts after) (rest, e, h) = (rest, ap (λ l. task ∷ l) e, h)
prepend_task-Hands q i task crashed h = h

given-Hands :
    (ex : Executor SetQueue) (i : ℕ) (q : List ℕ) (continue : Executor SetQueue → Beaten SetQueue)
    → Holds ex.queue q
    → ((task : ℕ) (squ : SetQueue) (left : List ℕ)
        → Holds squ left
        → Hands left (continue (hand ex i task squ)))
    → Hands q (given ex i (take_once ex.queue) continue)
unfolding Spec.take
given-Hands ex i [] continue h next =
    let (s, none_left, holds) = take_once-Takes ex.queue [] h in
    rw (given_nothing ex i (take_once ex.queue) continue s) ([], refl, holds)
given-Hands ex i (task ∷ q) continue h next =
    let (s, item, holds) = take_once-Takes ex.queue (task ∷ q) h in
    rw (given_task ex i task (take_once ex.queue) continue s item)
      (prepend_task-Hands q i task _ (next task (take_once ex.queue).0 q holds))

beat_loop-Hands :
    (fuel : ℕ) (ex : Executor SetQueue) (q : List ℕ) (r : Scan)
    → Holds ex.queue q
    → Hands q (beat_loop take_once fuel ex r)
unfolding beat_loop
beat_loop-Hands zero ex q r h = tt
beat_loop-Hands (suc fuel) ex q missing h = (q, refl, h)
beat_loop-Hands (suc fuel) ex q fault h = tt
beat_loop-Hands (suc fuel) ex q hung h = tt
beat_loop-Hands (suc fuel) ex q (found i) h = elim (Bool-cases (leb ex.size i)) [
  | inl beyond ↦ rw beyond (q, refl, h)
  | inr inside ↦ elim (Bool-cases (get_or ex.workers i blank).finished) [
    | inr busy ↦
        rw (inside, busy)
          (prepend-Hands q i _ (beat_loop-Hands fuel ex q (next_available ex (i + 1)) h))
    | inl idle ↦
        rw (inside, idle)
          (given-Hands ex i q _ h
            λ task squ left holds. beat_loop-Hands fuel (hand ex i task squ) left _ holds)
  ]
]

beat_after-Hands :
    (ex : Executor SetQueue) (q : List ℕ) (r : Option (Executor SetQueue))
    → Holds ex.queue q
    → Cleans ex r
    → Hands q (beat_after take_once r)
beat_after-Hands ex q (some from) h c =
    let kept : Holds from.queue q = rw c.1 h in
    beat_loop-Hands (enough take_once from) from q (next_available from 0) kept
beat_after-Hands ex q none h c = tt

-- What a beat on a set queue does: it ends, and hands out the tasks of the queue.
abbrev pub HandsOut : List ℕ → Beaten SetQueue → Type 0
HandsOut q (done acts after) = (rest : List ℕ) × (q ≡ tasks acts ++ rest) × Holds after.queue rest
HandsOut q crashed = ⊥

ended :
    (ex : Executor SetQueue) (q : List ℕ) (r : Beaten SetQueue)
    → Hands q r
    → IsServed take_once ex r
    → HandsOut q r
ended ex q (done acts after) h served = h
ended ex q crashed h served = served

-- A beat of the executor's monitor on the set queue that it was made with, with a bitmap that no
-- worker writes to during it and no other thread in the queue, ends. Where the queue holds the tasks
-- `q`, those that the beat gives to workers are the first of `q`, in the order of the workers, and the
-- queue holds the others: no task is lost, given twice or made up.
pub beat-HandsOut :
    (ex : Executor SetQueue) (q : List ℕ)
    → IsStored ex.bitmap ex.bitmap_length
    → Holds ex.queue q
    → HandsOut q (beat take_task ex)
unfolding beat
beat-HandsOut ex q ok h =
    let same : take_task ≡ take_once = fun_ext take_task-eq-take_once in
    rw same (
      ended ex q (beat take_once ex)
        (beat_after-Hands (record ex { failstry = false }) q _ h
          (start_cleanup-Cleans take_once ex ok))
        (beat-IsServed take_once ex ok))
