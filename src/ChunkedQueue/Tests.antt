-- ===== src/ChunkedQueue/Tests.antt =====
-- Runs of the chunked queue, and its theorems at concrete chunks.
use mcmp.Common.{ℕ, zero, suc, ◌≡◌, refl, true, false, some, none, List, [], ◌∷◌, arith, replicate}
use mcmp.Status.{success, overflow, out_of_mem}
use mcmp.ChunkedQueue.Calls.{Op, Holds, run_ops, promised_ops, run_ops_refine}
use mcmp.ChunkedQueue.{
  ChunkedQueue, Chunk, null, fault, create, PushPc, push_step, TakePc, take_step,
}
use mcmp.ChunkedQueue.SoloPush.{IsValid, run_push}
use mcmp.ChunkedQueue.SoloTake.{run_take}
use mcmp.ChunkedQueue.Threads.{
  System, taking, advance, call_push, call_take, Reach, here, later, IsSafe, Reach-IsSafe,
}

-- Two items, 8 and then 9, round the end of four cells.
abbrev wrapped : Chunk
wrapped = record { head = 1; tail = 3; items = 9 ∷ 0 ∷ 5 ∷ 8 ∷ [] }

-- No item; 5 is what an earlier item has left.
abbrev drained : Chunk
drained = record { head = 2; tail = 2; items = 9 ∷ 0 ∷ 5 ∷ 8 ∷ [] }

wrapped-IsValid : IsValid 4 wrapped
wrapped-IsValid = record {
  head_in = omega arith;
  tail_in = omega arith;
  room = omega arith;
  fits = omega arith;
}

drained-IsValid : IsValid 4 drained
drained-IsValid = record {
  head_in = omega arith;
  tail_in = omega arith;
  room = omega arith;
  fits = omega arith;
}

runs :
    ((run_push 4 7 (true ∷ true ∷ false ∷ true ∷ true ∷ true ∷ true ∷ []) wrapped PushPc.start).1
      ≡ PushPc.done success)
    × ((run_take 4 (replicate 4 true) wrapped TakePc.start).1 ≡ TakePc.done success (some 8))
    × ((run_take 4 (replicate 4 true) drained TakePc.start).1 ≡ TakePc.done overflow none)
    × (create none 5 2 ≡ null out_of_mem)
    × (create none 5 0 ≡ fault)
unfolding run_push run_take push_step take_step create
runs = (refl, refl, refl, refl, refl)

abbrev zeroed : ℕ → List ℕ
zeroed i = 0 ∷ 0 ∷ []

-- Threads that have made no call.
abbrev at_rest : System
at_rest = record { chunk = wrapped; task = λ _. taking (TakePc.done success none) }

at_rest-IsSafe : IsSafe 4 at_rest
at_rest-IsSafe = record {
  chunk_safe = record { head_in = omega arith; tail_in = omega arith; room = omega arith };
  tasks_safe = λ i. tt;
}

-- Thread 0 pushes 7 while thread 1 takes.
busy : (t : System) × Reach 4 at_rest t
busy = (
  _,
  later (later (later (later here (call_push 0 7)) (call_take 1)) (advance 0 true))
      (advance 1 true),
)

Reach-IsSafe_example : IsSafe 4 busy.0
unfolding busy
Reach-IsSafe_example = Reach-IsSafe 4 at_rest-IsSafe busy.1

-- Two chunks of four cells, of which the first holds 8 and 9.
abbrev two_chunks : ChunkedQueue
two_chunks = record {
  alignment = 4;
  total_length = 8;
  chunk_total_size = 48;
  chunks = wrapped ∷ drained ∷ [];
}

abbrev two_queues : ℕ → List ℕ
two_queues zero = 8 ∷ 9 ∷ []
two_queues (suc i) = []

two_chunks-Holds : Holds two_chunks two_queues
two_chunks-Holds zero h = (wrapped-IsValid, refl)
two_chunks-Holds (suc zero) h = (drained-IsValid, refl)
two_chunks-Holds (suc (suc i)) h = absurd (omega arith)

abbrev ops : List Op
ops =
    Op.take [] 0
    ∷ Op.push (true ∷ true ∷ false ∷ []) 1 7
    ∷ Op.push [] 0 6
    ∷ Op.push [] 0 5
    ∷ Op.take [] 1
    ∷ Op.take [] 1
    ∷ []

run_ops_refine_example : run_ops two_chunks ops ≡ some (promised_ops 4 two_queues ops)
run_ops_refine_example =
    run_ops_refine ops two_chunks two_queues two_chunks-Holds
      (omega arith, (omega arith, (omega arith, (omega arith, (omega arith, (omega arith, tt))))))
