-- ===== src/SetQueue/Calls.antt =====
-- Sequences of calls on a set queue, against the queue of distinct indices.
use mcmp.Common.{ℕ, ◌≡◌, refl, ap, ◌∙◌, arith, Option, none, some, List, [], ◌∷◌}
use mcmp.Status.{Status}
use mcmp.SetQueue.{SetQueue, PushPc, TakePc}
use mcmp.SetQueue.Spec
use mcmp.SetQueue.Once.{
  run_push, run_take, push_once, take_once, run_push-eq-push_once, run_take-eq-take_once,
}
use mcmp.SetQueue.Holds.{Holds}
use mcmp.SetQueue.PushOnce.{push_once-Pushes}
use mcmp.SetQueue.TakeOnce.{take_once-Takes}

-- The calls of one thread in order, with what each returns: nine steps of the code for each.
pub data Op : Type 0 where
  put : ℕ → Op
  get : Op

abbrev pub Reply : Type 0
Reply = Status × Option ℕ

-- `none` stands for a call that has not returned after its nine steps.
abbrev push_reply : SetQueue × PushPc → Option (Reply × SetQueue)
push_reply (squ, PushPc.done status) = some ((status, none), squ)
push_reply _ = none

abbrev take_reply : SetQueue × TakePc → Option (Reply × SetQueue)
take_reply (squ, TakePc.done status item) = some ((status, item), squ)
take_reply _ = none

unfoldable pub call : SetQueue → Op → Option (Reply × SetQueue)
call squ (put x) = push_reply (run_push 9 x squ PushPc.start)
call squ get = take_reply (run_take 9 squ TakePc.start)

abbrev pub and_then :
    Option (Reply × SetQueue) → (SetQueue → Option (List Reply)) → Option (List Reply)
and_then none next = none
and_then (some (reply, squ)) next = elim (next squ) [
  | none ↦ none
  | some replies ↦ some (reply ∷ replies)
]

unfoldable pub calls : SetQueue → List Op → Option (List Reply)
calls squ [] = some []
calls squ (op ∷ ops) = and_then (call squ op) (λ squ'. calls squ' ops)

unfoldable pub spec_calls : ℕ → List ℕ → List Op → List Reply
spec_calls n q [] = []
spec_calls n q (put x ∷ ops) =
    let (status, q') = Spec.push n q x in (status, none) ∷ spec_calls n q' ops
spec_calls n q (get ∷ ops) =
    let (status, item, q') = Spec.take q in (status, item) ∷ spec_calls n q' ops

push_once-bitslength : (x : ℕ) (squ : SetQueue) → (push_once x squ).0.bitslength ≡ squ.bitslength
unfolding push_once
push_once-bitslength x squ = ground arith

take_once-bitslength : (squ : SetQueue) → (take_once squ).0.bitslength ≡ squ.bitslength
unfolding take_once
take_once-bitslength squ = ground arith

pub call-put :
    (squ : SetQueue) (x : ℕ)
    → call squ (put x) ≡ some (((push_once x squ).1, none), (push_once x squ).0)
unfolding call
call-put squ x = rw (run_push-eq-push_once x squ) refl

pub call-get :
    (squ : SetQueue)
    → call squ get ≡ some (((take_once squ).1, (take_once squ).2), (take_once squ).0)
unfolding call
call-get squ = rw (run_take-eq-take_once squ) refl

pub calls-cons :
    (squ squ' : SetQueue) (op : Op) (ops : List Op) (reply : Reply) (replies : List Reply)
    → call squ op ≡ some (reply, squ')
    → calls squ' ops ≡ some replies
    → calls squ (op ∷ ops) ≡ some (reply ∷ replies)
unfolding calls
calls-cons squ squ' op ops reply replies first rest =
    ap (λ (o : Option (Reply × SetQueue)). and_then o (λ s. calls s ops)) first
    ∙ rw (and_then, rest) refl

-- A set queue of at least two cells that one thread uses behaves as the first-in first-out queue of
-- distinct indices: from a state that holds the list `q`, every sequence of pushes and takes returns,
-- and returns the statuses and indices of the specification.
pub calls_refine :
    (ops : List Op) (squ : SetQueue) (q : List ℕ)
    → Holds squ q
    → calls squ ops ≡ some (spec_calls squ.bitslength q ops)
unfolding calls spec_calls
calls_refine [] squ q v = refl
calls_refine (put x ∷ ops) squ q v =
    let p = push_once-Pushes squ q v x in
    let rest = calls_refine ops (push_once x squ).0 (Spec.push squ.bitslength q x).1 p.1 in
    let first = call-put squ x in
    calls-cons squ (push_once x squ).0 (put x) ops _ _ first rest
    ∙ rw (push_once-bitslength x squ, p.0) refl
calls_refine (get ∷ ops) squ q v =
    let p = take_once-Takes squ q v in
    let rest = calls_refine ops (take_once squ).0 (Spec.take q).2 p.2 in
    calls-cons squ (take_once squ).0 get ops _ _ (call-get squ) rest
    ∙ rw (take_once-bitslength squ, p.0, p.1) refl
