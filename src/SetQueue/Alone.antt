-- ===== src/SetQueue/Alone.antt =====
-- A thread that is left alone returns, wherever it stands and whatever the others have left.
use native.Mathlib.Decide.{ℕ_discrete}
use mathlib.Core.Logic.{if_pos, if_neg}
use mcmp.Common.{ℕ, zero, suc, ◌≡◌, ◌≢◌, refl, ap, ◌∙◌, arith, Bool, true, false}
use mcmp.SetQueue.{SetQueue, PushPc, push_step, TakePc, take_step}
use mcmp.SetQueue.Once.{run_push, run_take}
use mcmp.SetQueue.Threads.{
  Call, pushing, taking, Shared, assign, call_step, access, Moves, none_yet, then_one,
}

abbrev push_done : PushPc → Bool
push_done (PushPc.done status) = true
push_done _ = false

abbrev take_done : TakePc → Bool
take_done (TakePc.done status item) = true
take_done _ = false

abbrev pub call_done : Call → Bool
call_done (pushing ind pc) = push_done pc
call_done (taking pc) = take_done pc

-- Thread `i` makes `k` accesses and the others none.
unfoldable pub alone : (k i : ℕ) → Shared → Shared
alone zero i s = s
alone (suc k) i s = alone k i (record {
  squ = (call_step s.squ (s.thread i)).0;
  thread = assign s.thread i (call_step s.squ (s.thread i)).1;
})

run_call : ℕ → SetQueue → Call → SetQueue × Call
run_call zero squ call = (squ, call)
run_call (suc k) squ call = let (squ', call') = call_step squ call in run_call k squ' call'

alone-run_call :
    (k i : ℕ) (s : Shared)
    → ((alone k i s).squ, (alone k i s).thread i) ≡ run_call k s.squ (s.thread i)
unfolding alone run_call
alone-run_call zero i s = refl
alone-run_call (suc k) i s =
    let next = call_step s.squ (s.thread i) in
    alone-run_call k i (record { squ = next.0; thread = assign s.thread i next.1 })
    ∙ ap (run_call k next.0) (if_pos (ℕ_discrete i i) refl next.1 (s.thread i))

run_call-pushing :
    (k ind : ℕ) (squ : SetQueue) (pc : PushPc)
    → run_call k squ (pushing ind pc)
      ≡ (let (squ', pc') = run_push k ind squ pc in (squ', pushing ind pc'))
unfolding run_call run_push
run_call-pushing zero ind squ pc = refl
run_call-pushing (suc k) ind squ pc =
    run_call-pushing k ind (push_step ind squ pc).0 (push_step ind squ pc).1

run_call-taking :
    (k : ℕ) (squ : SetQueue) (pc : TakePc)
    → run_call k squ (taking pc) ≡ (let (squ', pc') = run_take k squ pc in (squ', taking pc'))
unfolding run_call run_take
run_call-taking zero squ pc = refl
run_call-taking (suc k) squ pc = run_call-taking k (take_step squ pc).0 (take_step squ pc).1

push_returns :
    (ind : ℕ) (squ : SetQueue) (pc : PushPc) → push_done (run_push 12 ind squ pc).1 ≡ true
unfolding run_push push_step
push_returns ind squ pc = ground arith

take_returns : (squ : SetQueue) (pc : TakePc) → take_done (run_take 12 squ pc).1 ≡ true
unfolding run_take take_step
take_returns squ pc = ground arith

run_call_returns : (squ : SetQueue) (call : Call) → call_done (run_call 12 squ call).1 ≡ true
run_call_returns squ (pushing ind pc) =
    rw (run_call-pushing 12 ind squ pc) (push_returns ind squ pc)
run_call_returns squ (taking pc) = rw (run_call-taking 12 squ pc) (take_returns squ pc)

pub alone-Moves : (k i : ℕ) {from : Shared} (s : Shared) → Moves from s → Moves from (alone k i s)
unfolding alone
alone-Moves zero i s m = m
alone-Moves (suc k) i s m = alone-Moves k i _ (then_one m (access i))

-- What becomes of a push that is left alone, and of the other threads.
pub alone-run_push :
    (k i ind : ℕ) (pc : PushPc) (s : Shared)
    → s.thread i ≡ pushing ind pc
    → ((alone k i s).squ ≡ (run_push k ind s.squ pc).0)
      × ((alone k i s).thread i ≡ pushing ind (run_push k ind s.squ pc).1)
alone-run_push k i ind pc s e =
    let whole : ((alone k i s).squ, (alone k i s).thread i)
        ≡ ((run_push k ind s.squ pc).0, pushing ind (run_push k ind s.squ pc).1) =
      alone-run_call k i s ∙ ap (run_call k s.squ) e ∙ run_call-pushing k ind s.squ pc in
    (ap (λ (p : SetQueue × Call). p.0) whole, ap (λ (p : SetQueue × Call). p.1) whole)

pub alone-others : (k i j : ℕ) (s : Shared) → i ≢ j → (alone k i s).thread j ≡ s.thread j
unfolding alone
alone-others zero i j s differ = refl
alone-others (suc k) i j s differ =
    alone-others k i j _ differ ∙ if_neg (ℕ_discrete i j) differ _ (s.thread j)

-- No thread can block another: from any state of the set queue, of its threads and of the calls that
-- they are in, whether or not it can be reached, a thread that makes twelve accesses while the others
-- make none has returned from its call.
pub alone_returns :
    (i : ℕ) (s : Shared) → Moves s (alone 12 i s) × (call_done ((alone 12 i s).thread i) ≡ true)
alone_returns i s = (
  alone-Moves 12 i s none_yet,
  ap (λ (p : SetQueue × Call). call_done p.1) (alone-run_call 12 i s)
      ∙ run_call_returns s.squ (s.thread i),
)
