-- ===== src/ChunkedQueue/Calls.antt =====
-- Sequences of calls on a chunked queue by one thread, against a queue for each chunk.
use mcmp.Common.{
  ℕ, ◌+◌, ◌<◌, ◌≡◌, ◌≢◌, refl, sym, ap, ◌∙◌, arith, Bool, true, false, Option, none, some, List, [],
  ◌∷◌, ◌++◌, Each, ◌==◌, if◌then◌else◌, length, get_elem?, get_or, set, replicate, length-set,
  get_or-set_self, get_or-set_ne, get_elem?-eq-get_or, Bool-cases, inl, inr,
}
use mcmp.Status.{Status, success, overflow}
use mcmp.ChunkedQueue.{Chunk, ChunkedQueue, PushPc, TakePc}
use mcmp.ChunkedQueue.SoloPush.{IsValid, items_of, run_push, PushReturns, run_push_lem}
use mcmp.ChunkedQueue.SoloTake.{run_take, TakeReturns, run_take_lem}

-- A call on a chunk; `steps` says how the exchanges of its first steps fare.
pub data Op : Type 0 where
  push : (steps : List Bool) → (chunkidx item : ℕ) → Op
  take : (steps : List Bool) → (chunkidx : ℕ) → Op

abbrev pub chunkidx_of : Op → ℕ
chunkidx_of (push steps chunkidx item) = chunkidx
chunkidx_of (take steps chunkidx) = chunkidx

-- What a call returns, with the item that a take has stored.
abbrev pub Reply : Type 0
Reply = Status × Option ℕ

abbrev pub push_reply : Chunk × PushPc → Option (Reply × Chunk)
push_reply (chunk, PushPc.done status) = some ((status, none), chunk)
push_reply _ = none

abbrev pub take_reply : Chunk × TakePc → Option (Reply × Chunk)
take_reply (chunk, TakePc.done status item) = some ((status, item), chunk)
take_reply _ = none

-- The call on its chunk. After the first steps no exchange fails without cause.
unfoldable pub on_chunk : (alignment : ℕ) → Op → Chunk → Option (Reply × Chunk)
on_chunk alignment (push steps chunkidx item) chunk =
    push_reply (run_push alignment item (steps ++ replicate 4 true) chunk PushPc.start)
on_chunk alignment (take steps chunkidx) chunk =
    take_reply (run_take alignment (steps ++ replicate 4 true) chunk TakePc.start)

abbrev pub stored : ChunkedQueue → ℕ → Option (Reply × Chunk) → Option (Reply × ChunkedQueue)
stored cq chunkidx none = none
stored cq chunkidx (some (reply, chunk)) =
    some (reply, record cq { chunks = set cq.chunks chunkidx chunk })

abbrev pub located : ChunkedQueue → Op → Option Chunk → Option (Reply × ChunkedQueue)
located cq op none = none
located cq op (some chunk) = stored cq (chunkidx_of op) (on_chunk cq.alignment op chunk)

-- The call; `none` is a chunk that the queue does not have, or a call that has not returned.
unfoldable pub run_op : ChunkedQueue → Op → Option (Reply × ChunkedQueue)
run_op cq op = located cq op (get_elem? cq.chunks (chunkidx_of op))

abbrev pub and_then :
    Option (Reply × ChunkedQueue) → (ChunkedQueue → Option (List Reply)) → Option (List Reply)
and_then none next = none
and_then (some (reply, cq)) next = elim (next cq) [
  | none ↦ none
  | some replies ↦ some (reply ∷ replies)
]

unfoldable pub run_ops : ChunkedQueue → List Op → Option (List Reply)
run_ops cq [] = some []
run_ops cq (op ∷ ops) = and_then (run_op cq op) (λ cq'. run_ops cq' ops)

-- The promise: a first-in first-out queue, with room for one item less than `n`.
unfoldable pub promised : (n : ℕ) → Op → List ℕ → Reply × List ℕ
promised n (push steps chunkidx item) q =
    if length q + 1 == n then ((overflow, none), q) else ((success, none), q ++ (item ∷ []))
promised n (take steps chunkidx) [] = ((overflow, none), [])
promised n (take steps chunkidx) (item ∷ q) = ((success, some item), q)

-- The queues of the chunks, by their index.
unfoldable pub promised_ops : (n : ℕ) → (ℕ → List ℕ) → List Op → List Reply
promised_ops n qs [] = []
promised_ops n qs (op ∷ ops) =
    let (reply, q) = promised n op (qs (chunkidx_of op)) in
    reply ∷ promised_ops n (λ i. if i == chunkidx_of op then q else qs i) ops

-- A chunk that holds the items `q`.
abbrev Models : ℕ → List ℕ → Chunk → Type 0
Models n q chunk = IsValid n chunk × (items_of n chunk ≡ q)

-- A call that returns what was promised, with the chunk after it.
abbrev Keeps : ℕ → Reply × List ℕ → Option (Reply × Chunk) → Type 0
Keeps n (reply, q) done = (after : Chunk) × (done ≡ some (reply, after)) × Models n q after

push-Keeps :
    (n item : ℕ) (chunk : Chunk) (q : List ℕ) (steps : List Bool) (chunkidx : ℕ)
    → Models n q chunk
    → (r : Chunk × PushPc) → PushReturns n item chunk r
    → Keeps n (promised n (push steps chunkidx item) q) (push_reply r)
unfolding promised
push-Keeps n item chunk q steps chunkidx v (after, PushPc.done success) p =
    let more : (length q + 1 == n) ≡ false = ground (arith, p.2, v.1) in
    rw more (after, refl, (p.0, p.1 ∙ ap (λ l. l ++ (item ∷ [])) v.1))
push-Keeps n item chunk q steps chunkidx v (after, PushPc.done overflow) p =
    let full : (length q + 1 == n) ≡ true = ground (arith, p.1, v.1) in
    rw full (after, refl, rw p.0 v)
push-Keeps n item chunk q steps chunkidx v (after, PushPc.done _) p = elim p [ ]
push-Keeps n item chunk q steps chunkidx v (after, _) p = elim p [ ]

take-Keeps :
    (n : ℕ) (chunk : Chunk) (q : List ℕ) (steps : List Bool) (chunkidx : ℕ)
    → Models n q chunk
    → (r : Chunk × TakePc) → TakeReturns n chunk r
    → Keeps n (promised n (take steps chunkidx) q) (take_reply r)
unfolding promised
take-Keeps n chunk q steps chunkidx v (after, TakePc.done success (some item)) p =
    let split : q ≡ item ∷ items_of n after = sym v.1 ∙ p.1 in rw split (after, refl, (p.0, refl))
take-Keeps n chunk q steps chunkidx v (after, TakePc.done overflow none) p =
    let nothing : q ≡ [] = sym v.1 ∙ p.1 in rw nothing (after, refl, rw p.0 (v.0, p.1))
take-Keeps n chunk q steps chunkidx v (after, TakePc.done _ _) p = elim p [ ]
take-Keeps n chunk q steps chunkidx v (after, _) p = elim p [ ]

on_chunk-Keeps :
    (n : ℕ) (op : Op) (chunk : Chunk) (q : List ℕ)
    → Models n q chunk
    → Keeps n (promised n op q) (on_chunk n op chunk)
unfolding on_chunk
on_chunk-Keeps n (push steps chunkidx item) chunk q v =
    push-Keeps n item chunk q steps chunkidx v _ (run_push_lem n item chunk v.0 steps)
on_chunk-Keeps n (take steps chunkidx) chunk q v =
    take-Keeps n chunk q steps chunkidx v _ (run_take_lem n chunk v.0 steps)

abbrev no_chunk : Chunk
no_chunk = record { head = 0; tail = 0; items = [] }

-- Each chunk of the queue is valid and holds the items of one of the lists `qs`.
abbrev pub Holds : ChunkedQueue → (ℕ → List ℕ) → Type 0
Holds cq qs =
    (i : ℕ) → i < length cq.chunks → Models cq.alignment (qs i) (get_or cq.chunks i no_chunk)

set-Holds :
    (cq : ChunkedQueue) (qs : ℕ → List ℕ) (idx : ℕ) (q : List ℕ) (chunk : Chunk)
    → Holds cq qs
    → Models cq.alignment q chunk
    → Holds (record cq { chunks = set cq.chunks idx chunk }) (λ i. if i == idx then q else qs i)
set-Holds cq qs idx q chunk v new i h =
    let inside : i < length cq.chunks = omega (arith, length-set cq.chunks idx chunk) in
    elim (Bool-cases (i == idx)) [
      | inl same ↦
          let e : i ≡ idx = ground arith in
          rw (same, e, get_or-set_self cq.chunks idx chunk no_chunk (omega arith)) new
      | inr differ ↦
          let e : idx ≢ i = λ e. ground arith in
          rw (differ, get_or-set_ne cq.chunks idx i chunk no_chunk e) (v i inside)
    ]

-- A chunked queue that one thread uses behaves as a first-in first-out queue for each chunk, with room
-- for one item less than the alignment: from a state in which its chunks hold the lists `qs`, every
-- sequence of pushes and takes on its chunks returns, whatever exchanges fail without cause before the
-- last four steps of each, and returns the statuses and the items that the queues give.
pub run_ops_refine :
    (ops : List Op) (cq : ChunkedQueue) (qs : ℕ → List ℕ)
    → Holds cq qs
    → Each (λ op. chunkidx_of op < length cq.chunks) ops
    → run_ops cq ops ≡ some (promised_ops cq.alignment qs ops)
unfolding run_ops promised_ops run_op
run_ops_refine [] cq qs v inside = refl
run_ops_refine (op ∷ ops) cq qs v inside =
    let idx = chunkidx_of op in
    let (chunk, done, new) =
      on_chunk-Keeps cq.alignment op (get_or cq.chunks idx no_chunk) (qs idx) (v idx inside.0) in
    let rest =
      run_ops_refine ops (record cq { chunks = set cq.chunks idx chunk }) _
        (set-Holds cq qs idx _ chunk v new) (rw (length-set cq.chunks idx chunk) inside.1) in
    rw (get_elem?-eq-get_or cq.chunks idx no_chunk inside.0, done, rest) refl
