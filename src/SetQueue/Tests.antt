-- ===== src/SetQueue/Tests.antt =====
-- Runs of the set queue, and its theorems at concrete queues.
use mcmp.Common.{ℕ, ◌<◌, ◌≡◌, refl, arith, true, none, some, List, [], ◌∷◌, replicate}
use mcmp.Status.{success, overflow, isempty, alrop}
use mcmp.Bitmap.{clean_order}
use mcmp.Bitmap.Laws.{clean_order-IsBytes, length-clean_order, bit_at-clean_order}
use mcmp.SetQueue.Threads.{
  Shared, pushing, taking, Moves, none_yet, then_one, access, begin_push, begin_take, IsShared,
  Moves-IsShared,
}
use mcmp.SetQueue.Alone.{call_done, alone, alone_returns}
use mcmp.SetQueue.{PushPc, TakePc, SetQueue, made, create}
use mcmp.SetQueue.Spec
use mcmp.SetQueue.Holds.{Holds}
use mcmp.SetQueue.Calls.{Op, put, get, calls, spec_calls, calls_refine}
use mcmp.SetQueue.Create.{create-Holds}
use mcmp.SetQueue.Overtaken.Lost.{Refuses, pushes_are_lost}

three_cells :
    (squ : SetQueue) × (create (some (replicate 3 5)) 3 ≡ made squ)
    × (squ.bitslength ≡ 3)
    × Holds squ []
three_cells = create-Holds (replicate 3 5) 3 (omega arith) (omega arith) (omega arith)

abbrev session : List Op
session = put 2 ∷ put 2 ∷ put 7 ∷ put 0 ∷ put 1 ∷ get ∷ get ∷ get ∷ []

session_replies :
    spec_calls 3 [] session
    ≡ (success, none)
      ∷ (alrop, none)
      ∷ (overflow, none)
      ∷ (success, none)
      ∷ (overflow, none)
      ∷ (success, some 2)
      ∷ (success, some 0)
      ∷ (isempty, none)
      ∷ []
unfolding spec_calls Spec.push Spec.take Spec.mem
session_replies = refl

calls_refine_example :
    calls three_cells.0 session ≡ some (spec_calls three_cells.0.bitslength [] session)
calls_refine_example = calls_refine session three_cells.0 [] three_cells.3

-- An empty queue of three cells, and threads without a call.
abbrev at_rest : Shared
at_rest = record {
  squ = record {
    byteslength = 1;
    bitslength = 3;
    head = 2;
    tail = 2;
    values = clean_order 1;
    ready = clean_order 1;
    items = replicate 3 5;
  };
  thread = λ i. taking (TakePc.done success none);
}

at_rest-IsShared : IsShared 3 at_rest
at_rest-IsShared = record {
  queue_inside = record {
    bits = refl;
    head_in = omega arith;
    tail_in = omega arith;
    room = omega arith;
    values_room = omega (arith, length-clean_order 1);
    ready_room = omega (arith, length-clean_order 1);
    ready_bytes = clean_order-IsBytes 1;
    ready_cells = λ j on. absurd (omega (arith, on, bit_at-clean_order 1 j));
  };
  threads_inside = λ i. tt;
}

-- Thread 0 pushes 1 while thread 4 takes.
mixed : (t : Shared) × Moves at_rest t
mixed = (
  _,
  then_one (then_one (then_one (then_one none_yet (begin_push 0 1)) (begin_take 4)) (access 0))
      (access 4),
)

Moves-IsShared_example : IsShared 3 mixed.0
unfolding mixed
Moves-IsShared_example = Moves-IsShared 3 at_rest-IsShared mixed.1

-- A push that stands between its accesses.
abbrev midway : Shared
midway = record at_rest { thread = λ i. pushing 1 PushPc.start }

alone_returns_example :
    Moves midway (alone 12 4 midway) × (call_done ((alone 12 4 midway).thread 4) ≡ true)
alone_returns_example = alone_returns 4 midway

pushes_are_lost_example :
    (squ : SetQueue) × (create (some (replicate 3 5)) 3 ≡ made squ)
    × ((t : Shared) × Moves (record { squ = squ; thread = λ i. taking TakePc.start }) t
        × ((i : ℕ) → i < 3 → t.thread i ≡ pushing i (PushPc.done success))
        × Refuses 3 t.squ)
pushes_are_lost_example =
    pushes_are_lost 3 (replicate 3 5) (λ i. taking TakePc.start) (omega arith) (omega arith)
