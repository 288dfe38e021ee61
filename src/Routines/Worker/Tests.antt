-- ===== src/Routines/Worker/Tests.antt =====
-- The theorems on workers at a concrete executor.
use mcmp.Common.{
  ℕ, zero, suc, ◌≡◌, refl, sym, arith, true, false, Option, none, some, List, [], ◌∷◌, replicate,
}
use mcmp.Status.{Status, success, isempty}
use mcmp.Bitmap.{IsBytes, clean_order}
use mcmp.Bitmap.Laws.{clean_order-IsBytes}
use mcmp.Bitmap.Scan.Exact.{IsStored}
use mcmp.SetQueue.{SetQueue}
use mcmp.SetQueue.Spec
use mcmp.SetQueue.Holds.{Holds}
use mcmp.SetQueue.Once.{push_once}
use mcmp.SetQueue.PushOnce.{push_once-Pushes}
use mcmp.SetQueue.Create.{create-Holds}
use mcmp.Routines.Worker.Tasks.{take_task, HandsOut, beat-HandsOut}
use mcmp.Routines.Worker.{Executor, Access, sub, beat}
use mcmp.Routines.Worker.Sub.{Runs, sub-Runs}

-- A queue as the list of its tasks.
abbrev take : List ℕ → List ℕ × Status × Option ℕ
take [] = ([], isempty, none)
take (task ∷ tasks) = (tasks, success, some task)

-- Three workers: the first still has a task, and the others have finished, of which the second has not
-- cleared its bit. One task is waiting.
abbrev executor : Executor (List ℕ)
executor = record {
  size = 3;
  bitmap_length = 1;
  failstry = true;
  bitmap = 2 ∷ [];
  workers =
      record { taskdata = 8; finished = false }
      ∷ record { taskdata = 0; finished = true }
      ∷ record { taskdata = 0; finished = true }
      ∷ [];
  queue = 5 ∷ [];
}

two-IsBytes : IsBytes (2 ∷ [])
two-IsBytes zero = omega arith
two-IsBytes (suc i) = omega arith

executor-IsStored : IsStored executor.bitmap executor.bitmap_length
executor-IsStored = record {
  holds_bytes = two-IsBytes;
  holds_len = omega arith;
  fits = omega arith;
}

abbrev accesses : ℕ → Access
accesses k = record { loaded = clean_order 1; current = clean_order 1 }

sub-Runs_example : Runs accesses accesses 3 (sub accesses accesses 3 false)
sub-Runs_example = sub-Runs accesses accesses 3 false (λ k. clean_order-IsBytes 1)

first_pushed : (Spec.push 3 [] 1).1 ≡ 1 ∷ []
unfolding Spec.push Spec.mem
first_pushed = refl

first_push :
    (squ : SetQueue) → squ.bitslength ≡ 3 → Holds squ [] → Holds (push_once 1 squ).0 (1 ∷ [])
first_push squ three holds =
    let queued : (Spec.push squ.bitslength [] 1).1 ≡ 1 ∷ [] = rw three first_pushed in
    rw (sym queued) (push_once-Pushes squ [] holds 1).1

-- A set queue of three cells that holds the task 1.
stocked : (squ : SetQueue) × Holds squ (1 ∷ [])
stocked =
    let (squ, _, three, holds) =
      create-Holds (replicate 3 5) 3 (omega arith) (omega arith) (omega arith) in
    ((push_once 1 squ).0, first_push squ three holds)

beat-HandsOut_example : HandsOut (1 ∷ []) (
    beat take_task (record {
      size = executor.size;
      bitmap_length = executor.bitmap_length;
      failstry = executor.failstry;
      bitmap = executor.bitmap;
      workers = executor.workers;
      queue = stocked.0;
    }))
beat-HandsOut_example = beat-HandsOut _ (1 ∷ []) executor-IsStored stocked.1
