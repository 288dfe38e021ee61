-- ===== src/Cli/Program/Laws.antt =====
-- What the program opens, uses and closes.
use mcmp.Common.{
  ℕ, suc, ◌≡◌, ◌⊎◌, inl, inr, refl, arith, Bool, true, false, not, ◌&&◌, List, [], ◌∷◌, Option,
  some, none, zero, ◌<◌, ◌≤◌, Bool-cases, if◌then◌else◌, ltb,
}
use mcmp.Cli.{Turn, Act, beat, process, update, Ending, stopped, failed, overrun, waiting, run_loop}
use mcmp.Cli.Program.{
  Part, environment, server, broadcast, heartbeat, writer, queue, Call, opens, closes, flushes,
  sets_writer, sets_context, starts_writer, acts, logs, logs_plain, blocks, restores, Exit, exits,
  runs, breaks, before, setup, cleanup, acting, served, run_server, main,
}

-- Which parts are open.
pub record Open : Type 0 where
  pub environments : Bool
  pub servers : Bool
  pub broadcasts : Bool
  pub heartbeats : Bool
  pub writers : Bool
  pub queues : Bool

abbrev pub nothing : Open
nothing = record {
  environments = false;
  servers = false;
  broadcasts = false;
  heartbeats = false;
  writers = false;
  queues = false;
}

abbrev pub is_open : Open → Part → Bool
is_open o environment = o.environments
is_open o server = o.servers
is_open o broadcast = o.broadcasts
is_open o heartbeat = o.heartbeats
is_open o writer = o.writers
is_open o queue = o.queues

abbrev pub turned : Open → Part → Bool → Open
turned o environment b = record o { environments = b }
turned o server b = record o { servers = b }
turned o broadcast b = record o { broadcasts = b }
turned o heartbeat b = record o { heartbeats = b }
turned o writer b = record o { writers = b }
turned o queue b = record o { queues = b }

-- The parts that a part reads while it lives: those must be open when it is opened, and stay so until
-- it is closed.
abbrev pub needs : Open → Part → Bool
needs o heartbeat = o.broadcasts
needs o writer = o.broadcasts
needs o server = o.environments
needs o _ = true

abbrev pub free_of : Open → Part → Bool
free_of o broadcast = not o.heartbeats && not o.writers
free_of o environment = not o.servers
free_of o _ = true

-- What each call asks of the open parts.
abbrev pub allows : Open → Call → Bool
allows o (opens part) = not (is_open o part) && needs o part
allows o (closes part) = is_open o part && free_of o part
allows o flushes = o.servers && o.broadcasts
allows o sets_writer = o.servers && o.writers
allows o sets_context = o.environments
allows o starts_writer = o.writers
allows o (acts beat) = o.heartbeats
allows o (acts process) = o.servers && o.broadcasts && o.heartbeats
allows o (acts (update nfds)) = o.servers && o.broadcasts
allows o logs = o.environments
allows o logs_plain = true
allows o blocks = true
allows o restores = true

abbrev pub after : Open → Call → Open
after o (opens part) = turned o part true
after o (closes part) = turned o part false
after o _ = o

-- What is open in the end, if each call is allowed where it is made.
abbrev pub uses : Open → List Call → Option Open
uses o [] = some o
uses o (call ∷ others) =
    let rest = uses (after o call) others in if allows o call then rest else none

abbrev pub all_open : Open
all_open = record {
  environments = true;
  servers = true;
  broadcasts = true;
  heartbeats = true;
  writers = true;
  queues = false;
}

-- What stays open: nothing, unless the program does not end.
abbrev pub left : Exit → Open
left (exits status) = nothing
left runs = all_open
left breaks = all_open

uses-acting :
    (acted : List Act) (rest : List Call) → uses all_open (acting acted rest) ≡ uses all_open rest
uses-acting [] rest = refl
uses-acting (beat ∷ others) rest = uses-acting others rest
uses-acting (process ∷ others) rest = uses-acting others rest
uses-acting (update nfds ∷ others) rest = uses-acting others rest

-- Where the exit says it, the program was told to serve and could change the mask of signals.
abbrev pub Tells : (argc : ℕ) → (serve blocked restored : Bool) → Exit → Type 0
Tells argc serve blocked restored (exits zero) =
    (1 < argc) × (serve ≡ true) × (blocked ≡ true) × (restored ≡ true)
Tells argc serve blocked restored (exits (suc status)) =
    (argc ≤ 1) ⊎ (serve ≡ false) ⊎ (blocked ≡ false) ⊎ (restored ≡ false)
Tells argc serve blocked restored _ = (serve ≡ true) × (restored ≡ true)

abbrev pub Closes : (argc : ℕ) → (serve blocked restored : Bool) → List Call × Exit → Type 0
Closes argc serve blocked restored (called, exit) =
    (uses nothing called ≡ some (left exit)) × Tells argc serve blocked restored exit

served-Closes :
    (argc : ℕ) (r : List Act × Ending)
    → 1 < argc
    → Closes argc true true true (before setup (served r))
served-Closes argc (acted, stopped) h = (uses-acting acted (logs ∷ cleanup), (h, refl, refl, refl))
served-Closes argc (acted, failed) h = (uses-acting acted (logs ∷ cleanup), (h, refl, refl, refl))
served-Closes argc (acted, overrun) h = (uses-acting acted [], (refl, refl))
served-Closes argc (acted, waiting) h = (uses-acting acted [], (refl, refl))

run_server-Closes :
    (argc : ℕ) (blocked restored : Bool) (turns : List Turn)
    → 1 < argc
    → Closes argc true blocked restored (run_server blocked restored turns)
unfolding run_server
run_server-Closes argc true true turns h = served-Closes argc (run_loop 0 turns) h
run_server-Closes argc true false turns h = (refl, inr (inr (inr refl)))
run_server-Closes argc false restored turns h = (refl, inr (inr (inl refl)))

-- The program, on every way through it, opens each part once the parts that it reads are open, uses
-- only what is open, closes each part that it has opened once, after those that read it, and has
-- nothing open when it ends, whatever its loop meets, unless it does not end or is given more events
-- than there is room for. Its status is 0 only where it was told to serve and could block the signals
-- and restore them, and is another one only where one of these failed.
pub main-Closes :
    (argc : ℕ) (serve blocked restored : Bool) (turns : List Turn)
    → Closes argc serve blocked restored (main argc serve blocked restored turns)
unfolding main
main-Closes argc serve blocked restored turns = elim (Bool-cases (ltb argc 2)) [
  | inl few ↦ rw few (refl, inl (ground arith))
  | inr enough ↦ rw enough (chosen serve (ground arith))
]
  where
    chosen :
        (serve : Bool)
        → 1 < argc
        → Closes argc serve blocked restored (
            if serve
            then run_server blocked restored turns
            else (opens queue ∷ closes queue ∷ [], exits 1))
    chosen true h = run_server-Closes argc blocked restored turns h
    chosen false h = (refl, inr (inl refl))
