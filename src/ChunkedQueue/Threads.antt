-- ===== src/ChunkedQueue/Threads.antt =====
-- Any number of producers and consumers of one chunk, interleaved step by step.
use mcmp.Common.{ℕ, ◌≤◌, ◌<◌, arith, Bool, length, length-set}
use native.Mathlib.Nat.{mod-lt}
use native.Mathlib.Decide.{ℕ_discrete}
use mathlib.Core.Logic.{ite, if_pos, if_neg}
use mcmp.Ring.{next_index}
use mcmp.ChunkedQueue.{Chunk, PushPc, push_step, TakePc, take_step}

-- What a thread does on the chunk: a push of an item, or a take.
pub data Task : Type 0 where
  pushing : (item : ℕ) → PushPc → Task
  taking : TakePc → Task

pub record System : Type 0 where
  pub chunk : Chunk
  pub task : ℕ → Task

abbrev pub update : (ℕ → Task) → ℕ → Task → ℕ → Task
update task i t j = ite (ℕ_discrete i j) t (task j)

abbrev task_step : ℕ → Bool → Chunk → Task → Chunk × Task
task_step n lucky chunk (pushing item pc) =
    let (chunk', pc') = push_step n item lucky chunk pc in (chunk', pushing item pc')
task_step n lucky chunk (taking pc) =
    let (chunk', pc') = take_step n lucky chunk pc in (chunk', taking pc')

-- Thread `i` makes a step, or a thread that has returned begins another call.
pub data Step (n : ℕ) (s : System) : System → Type 0 where
  advance :
      (i : ℕ) (lucky : Bool)
      → Step n s (record {
        chunk = (task_step n lucky s.chunk (s.task i)).0;
        task = update s.task i (task_step n lucky s.chunk (s.task i)).1;
      })
  call_push :
      (i item : ℕ) → Step n s (record s { task = update s.task i (pushing item PushPc.start) })
  call_take : (i : ℕ) → Step n s (record s { task = update s.task i (taking TakePc.start) })

pub data Reach (n : ℕ) (from : System) : System → Type 0 where
  here : Reach n from from
  later : {s t : System} → Reach n from s → Step n s t → Reach n from t

-- The cells that a thread is about to use lie in the chunk.
abbrev pub PushInside : ℕ → PushPc → Type 0
PushInside n PushPc.start = Unit
PushInside n (PushPc.loaded index next) = (index < n) × (next < n)
PushInside n (PushPc.claiming index next) = (index < n) × (next < n)
PushInside n (PushPc.writing index) = index < n
PushInside n (PushPc.done status) = Unit

abbrev pub TakeInside : ℕ → TakePc → Type 0
TakeInside n TakePc.start = Unit
TakeInside n (TakePc.loaded index next) = (index < n) × (next < n)
TakeInside n (TakePc.claiming index next) = (index < n) × (next < n)
TakeInside n (TakePc.reading index) = index < n
TakeInside n (TakePc.done status item) = Unit

abbrev TaskInside : ℕ → Task → Type 0
TaskInside n (pushing item pc) = PushInside n pc
TaskInside n (taking pc) = TakeInside n pc

pub record IsInside (n : ℕ) (chunk : Chunk) : Type 0 where
  pub head_in : chunk.head < n
  pub tail_in : chunk.tail < n
  pub room : n ≤ length chunk.items

pub record IsSafe (n : ℕ) (s : System) : Type 0 where
  pub chunk_safe : IsInside n s.chunk
  pub tasks_safe : (i : ℕ) → TaskInside n (s.task i)

next_index-lt : (n i : ℕ) → 0 < n → next_index n i < n
next_index-lt n i pos = mod-lt _ {m = n} pos

push_step-Inside :
    (n item : ℕ) (lucky : Bool) (chunk : Chunk) (pc : PushPc)
    → IsInside n chunk
    → PushInside n pc
    → IsInside n (push_step n item lucky chunk pc).0
      × PushInside n (push_step n item lucky chunk pc).1
unfolding push_step
push_step-Inside n item lucky chunk PushPc.start v p =
    (v, (v.head_in, next_index-lt n chunk.head (omega (arith, v.head_in))))
push_step-Inside n item lucky chunk (PushPc.writing index) v p =
    ground (arith, length-set chunk.items index item)
push_step-Inside n item lucky chunk pc v p = ground arith

take_step-Inside :
    (n : ℕ) (lucky : Bool) (chunk : Chunk) (pc : TakePc)
    → IsInside n chunk
    → TakeInside n pc
    → IsInside n (take_step n lucky chunk pc).0 × TakeInside n (take_step n lucky chunk pc).1
unfolding take_step
take_step-Inside n lucky chunk TakePc.start v p =
    (v, (v.tail_in, next_index-lt n chunk.tail (omega (arith, v.tail_in))))
take_step-Inside n lucky chunk pc v p = ground arith

task_step-Inside :
    (n : ℕ) (lucky : Bool) (chunk : Chunk) (task : Task)
    → IsInside n chunk
    → TaskInside n task
    → IsInside n (task_step n lucky chunk task).0 × TaskInside n (task_step n lucky chunk task).1
task_step-Inside n lucky chunk (pushing item pc) v p = push_step-Inside n item lucky chunk pc v p
task_step-Inside n lucky chunk (taking pc) v p = take_step-Inside n lucky chunk pc v p

update-Inside :
    (n : ℕ) (task : ℕ → Task) (i : ℕ) (t : Task)
    → ((j : ℕ) → TaskInside n (task j))
    → TaskInside n t
    → (j : ℕ) → TaskInside n (update task i t j)
update-Inside n task i t old new j = elim (ℕ_discrete i j) [
  | yes same ↦ rw (if_pos (ℕ_discrete i j) same) new
  | no differ ↦ rw (if_neg (ℕ_discrete i j) differ) (old j)
]

Step-IsSafe : (n : ℕ) {s t : System} → Step n s t → IsSafe n s → IsSafe n t
Step-IsSafe n {s} (advance i lucky) v =
    let next = task_step-Inside n lucky s.chunk (s.task i) v.chunk_safe (v.tasks_safe i) in
    record { chunk_safe = next.0; tasks_safe = update-Inside n s.task i _ v.tasks_safe next.1 }
Step-IsSafe n {s} (call_push i item) v = record {
  chunk_safe = v.chunk_safe;
  tasks_safe = update-Inside n s.task i (pushing item PushPc.start) v.tasks_safe tt;
}
Step-IsSafe n {s} (call_take i) v = record {
  chunk_safe = v.chunk_safe;
  tasks_safe = update-Inside n s.task i (taking TakePc.start) v.tasks_safe tt;
}

-- In every state that any number of threads reach by pushes and takes, in any interleaving and with
-- any failures of their exchanges, the head and the tail of the chunk and every index that a thread
-- has in hand lie in the chunk, and the chunk keeps its room: no item is read or written out of it.
-- This holds from a state where it holds, such as an empty chunk and threads that have made no call.
pub Reach-IsSafe : (n : ℕ) {s t : System} → IsSafe n s → Reach n s t → IsSafe n t
Reach-IsSafe n v here = v
Reach-IsSafe n v (later r st) = Step-IsSafe n st (Reach-IsSafe n v r)
