-- ===== src/SetQueue/Threads.antt =====
-- Any number of threads that push to and take from one set queue, interleaved access by access.
use native.Mathlib.Decide.{ℕ_discrete}
use mathlib.Core.Logic.{ite, if_pos, if_neg}
use mcmp.Common.{ℕ}
use mcmp.SetQueue.{SetQueue, PushPc, push_step, TakePc, take_step}
use mcmp.SetQueue.Inside.{IsInside, PushInside, TakeInside, Keeps}
use mcmp.SetQueue.Steps.{
  push_step-PushKeeps, take_step-TakeKeeps, PushInside-Keeps, TakeInside-Keeps,
}

-- What a thread does: a push of an index, or a take.
pub data Call : Type 0 where
  pushing : (ind : ℕ) → PushPc → Call
  taking : TakePc → Call

pub record Shared : Type 0 where
  pub squ : SetQueue
  pub thread : ℕ → Call

abbrev pub assign : (ℕ → Call) → ℕ → Call → ℕ → Call
assign thread i c j = ite (ℕ_discrete i j) c (thread j)

abbrev pub call_step : SetQueue → Call → SetQueue × Call
call_step squ (pushing ind pc) = let (squ', pc') = push_step ind squ pc in (squ', pushing ind pc')
call_step squ (taking pc) = let (squ', pc') = take_step squ pc in (squ', taking pc')

-- A thread makes one access, or begins a call.
pub data Move (s : Shared) : Shared → Type 0 where
  access :
      (i : ℕ)
      → Move s (record {
        squ = (call_step s.squ (s.thread i)).0;
        thread = assign s.thread i (call_step s.squ (s.thread i)).1;
      })
  begin_push :
      (i ind : ℕ) → Move s (record s { thread = assign s.thread i (pushing ind PushPc.start) })
  begin_take : (i : ℕ) → Move s (record s { thread = assign s.thread i (taking TakePc.start) })

pub data Moves (from : Shared) : Shared → Type 0 where
  none_yet : Moves from from
  then_one : {s t : Shared} → Moves from s → Move s t → Moves from t

abbrev CallInside : ℕ → SetQueue → Call → Type 0
CallInside n squ (pushing ind pc) = PushInside n squ ind pc
CallInside n squ (taking pc) = TakeInside n squ pc

pub record IsShared (n : ℕ) (s : Shared) : Type 0 where
  pub queue_inside : IsInside n s.squ
  pub threads_inside : (i : ℕ) → CallInside n s.squ (s.thread i)

CallInside-Keeps :
    (n : ℕ) (squ squ' : SetQueue) (c : Call)
    → Keeps n squ squ'
    → CallInside n squ c
    → CallInside n squ' c
CallInside-Keeps n squ squ' (pushing ind pc) k p = PushInside-Keeps n squ squ' ind pc k p
CallInside-Keeps n squ squ' (taking pc) k p = TakeInside-Keeps n squ squ' pc k p

call_step-Keeps :
    (n : ℕ) (squ : SetQueue) (c : Call)
    → IsInside n squ
    → CallInside n squ c
    → IsInside n (call_step squ c).0
      × CallInside n (call_step squ c).0 (call_step squ c).1
      × Keeps n squ (call_step squ c).0
call_step-Keeps n squ (pushing ind pc) v p = push_step-PushKeeps n squ v ind pc p
call_step-Keeps n squ (taking pc) v p = take_step-TakeKeeps n squ v pc p

assign-CallInside :
    (n : ℕ) (squ : SetQueue) (thread : ℕ → Call) (i : ℕ) (c : Call)
    → ((j : ℕ) → CallInside n squ (thread j))
    → CallInside n squ c
    → (j : ℕ) → CallInside n squ (assign thread i c j)
assign-CallInside n squ thread i c old new j = elim (ℕ_discrete i j) [
  | yes same ↦ rw (if_pos (ℕ_discrete i j) same) new
  | no differ ↦ rw (if_neg (ℕ_discrete i j) differ) (old j)
]

Move-IsShared : (n : ℕ) {s t : Shared} → IsShared n s → Move s t → IsShared n t
Move-IsShared n {s} v (access i) =
    let (whole, mine, keeps) =
      call_step-Keeps n s.squ (s.thread i) v.queue_inside (v.threads_inside i) in
    record {
      queue_inside = whole;
      threads_inside =
          assign-CallInside n (call_step s.squ (s.thread i)).0 s.thread i _
            (λ j.
              CallInside-Keeps n s.squ (call_step s.squ (s.thread i)).0 (s.thread j) keeps
                (v.threads_inside j))
            mine;
    }
Move-IsShared n {s} v (begin_push i ind) = record {
  queue_inside = v.queue_inside;
  threads_inside =
      assign-CallInside n s.squ s.thread i (pushing ind PushPc.start) v.threads_inside tt;
}
Move-IsShared n {s} v (begin_take i) = record {
  queue_inside = v.queue_inside;
  threads_inside = assign-CallInside n s.squ s.thread i (taking TakePc.start) v.threads_inside tt;
}

-- However the accesses of any number of pushes and takes interleave, head, tail, and every cell, index
-- and bit that a thread is about to use lie in the set queue, and each cell that is marked as ready
-- holds an index of it: nothing is read or written outside. This holds from a state where it holds,
-- such as a new queue and threads without a call.
pub Moves-IsShared : (n : ℕ) {s t : Shared} → IsShared n s → Moves s t → IsShared n t
Moves-IsShared n v none_yet = v
Moves-IsShared n v (then_one r step) = Move-IsShared n (Moves-IsShared n v r) step
