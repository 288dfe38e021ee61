-- ===== src/Cli/Context/Laws.antt =====
-- No signal is lost before the loop, and the log goes where it is told to.
use mcmp.Common.{
  ℕ, ◌≡◌, refl, arith, Bool, true, false, Option, none, some, List, [], ◌∷◌, leb, if◌then◌else◌,
}
use mcmp.Environment.{
  Text, Env, Event, wrote, write_line, initilize, set_log_file_name, set_log_level, open_log_file,
}
use mcmp.Cli.Context.{
  Signal, interrupt, terminate, Process, arrive, arrive_all, pend, main_sigset, restore,
  logfilename, create_from_context,
}

abbrev pub any : List Signal → Bool
any [] = false
any (_ ∷ _) = true

-- A process whose signals are blocked, and some of whose signals are pending.
record IsWaiting (pending : Bool) (p : Process) : Type 0 where
  handled : p.handled ≡ true
  blocked : p.blocked ≡ true
  killed : p.killed ≡ false
  running : p.running ≡ true
  kept : (if p.pending_interrupt then true else p.pending_terminate) ≡ pending

arrive-pend : (sig : Signal) (p : Process) → p.blocked ≡ true → arrive sig p ≡ pend sig p
unfolding arrive
arrive-pend sig p e = rw e refl

pend-IsWaiting :
    (sig : Signal) (pending : Bool) (p : Process)
    → IsWaiting pending p
    → IsWaiting true (pend sig p)
pend-IsWaiting interrupt pending p v = record {
  handled = v.handled;
  blocked = v.blocked;
  killed = v.killed;
  running = v.running;
  kept = refl;
}
pend-IsWaiting terminate pending p v = record {
  handled = v.handled;
  blocked = v.blocked;
  killed = v.killed;
  running = v.running;
  kept = ground arith;
}

arrive-IsWaiting :
    (sig : Signal) (pending : Bool) (p : Process)
    → IsWaiting pending p
    → IsWaiting true (arrive sig p)
arrive-IsWaiting sig pending p v = rw (arrive-pend sig p v.blocked) (pend-IsWaiting sig pending p v)

arrive_all-IsWaiting :
    (sigs : List Signal) (p : Process) → IsWaiting true p → IsWaiting true (arrive_all sigs p)
unfolding arrive_all
arrive_all-IsWaiting [] p v = v
arrive_all-IsWaiting (sig ∷ sigs) p v =
    arrive_all-IsWaiting sigs (arrive sig p) (arrive-IsWaiting sig true p v)

first-IsWaiting :
    (sigs : List Signal) (p : Process)
    → IsWaiting false p
    → IsWaiting (any sigs) (arrive_all sigs p)
unfolding arrive_all
first-IsWaiting [] p v = v
first-IsWaiting (sig ∷ sigs) p v =
    arrive_all-IsWaiting sigs (arrive sig p) (arrive-IsWaiting sig false p v)

restore-IsWaiting :
    (pending : Bool) (p : Process)
    → IsWaiting pending p
    → ((restore false p).running ≡ (if pending then false else true))
      × ((restore false p).killed ≡ false)
unfolding restore
restore-IsWaiting pending p v = ground (arith, v.handled, v.blocked, v.killed, v.running, v.kept)

abbrev pub at_start : ℕ → Process
at_start feeds = record {
  handled = false;
  blocked = false;
  pending_interrupt = false;
  pending_terminate = false;
  killed = false;
  running = true;
  feeds = feeds;
}

-- Whatever signals come while the server is set up, they neither end the process nor clear
-- `server_running` before the mask is restored; then it is clear exactly if one came.
setup_lem :
    (sigs : List Signal) (feeds : ℕ)
    → let (status, oldset, q) = main_sigset true (at_start feeds) in
      let during = arrive_all sigs q in
      (status ≡ 0)
      × (during.running ≡ true)
      × (during.killed ≡ false)
      × ((restore oldset during).running ≡ (if any sigs then false else true))
      × ((restore oldset during).killed ≡ false)
unfolding main_sigset
setup_lem sigs feeds =
    let v =
      first-IsWaiting sigs _
        (record { handled = refl; blocked = refl; killed = refl; running = refl; kept = refl }) in
    let after = restore-IsWaiting (any sigs) _ v in (refl, v.running, v.killed, after.0, after.1)

abbrev to_file : Option ℕ → Text → List Event
to_file none line = []
to_file (some fd) line = wrote fd line ∷ []

-- The environment of the server, with memory for it, prints the lines of the level DEBUG and above, and
-- writes those of all levels to its file if that could be opened.
context_lem :
    (memory : Env) (fd : Option ℕ) (level : ℕ) (line : Text)
    → (env : Env) × (events : List Event) × (create_from_context (some memory) fd
        ≡ some (env, events))
      × (env.logfilepath ≡ some logfilename)
      × (write_line (some env) level line
          ≡ (if leb 1 level then wrote 1 line ∷ to_file fd line else to_file fd line))
unfolding create_from_context initilize set_log_file_name set_log_level open_log_file write_line
context_lem memory none level line = (_, _, refl, refl, refl)
context_lem memory (some fd) level line = (_, _, refl, refl, refl)
