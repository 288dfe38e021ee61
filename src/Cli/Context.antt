-- ===== src/Cli/Context.antt =====
-- cli/src/linux/main.c: the signals and the environment that `run_server` starts with. Of the signals,
-- those that it handles count: SIGINT and SIGTERM.
pub mod Laws
mod Tests
use mcmp.Common.{ℕ, ◌+◌, Bool, true, false, Option, none, some, List, [], ◌∷◌, if◌then◌else◌}
use mcmp.Environment.{Text, Env, Event, initilize, set_log_file_name, set_log_level, open_log_file}

pub data Signal : Type 0 where
  interrupt terminate : Signal

-- The process, as far as signals touch it: whether the handler is installed, the mask has the signals,
-- each of them is pending, the process was ended by one; and `server_running`, and the line feeds that
-- the handler has printed.
pub record Process : Type 0 where
  pub handled : Bool
  pub blocked : Bool
  pub pending_interrupt : Bool
  pub pending_terminate : Bool
  pub killed : Bool
  pub running : Bool
  pub feeds : ℕ

-- `run_server_signal`
abbrev pub run_server_signal : Signal → Process → Process
run_server_signal interrupt p = record p { running = false; feeds = p.feeds + 1 }
run_server_signal terminate p = record p { running = false }

abbrev pub deliver : Signal → Process → Process
deliver sig p = if p.handled then run_server_signal sig p else record p { killed = true }

-- A signal is sent to the process.
abbrev pub pend : Signal → Process → Process
pend interrupt p = record p { pending_interrupt = true }
pend terminate p = record p { pending_terminate = true }

unfoldable pub arrive : Signal → Process → Process
arrive sig p = if p.blocked then pend sig p else deliver sig p

unfoldable pub arrive_all : List Signal → Process → Process
arrive_all [] p = p
arrive_all (sig ∷ sigs) p = arrive_all sigs (arrive sig p)

-- `main_sigset`, with the mask that it stores to `oldset`; `blocks` is whether `sigprocmask` succeeds.
unfoldable pub main_sigset : (blocks : Bool) → Process → ℕ × Bool × Process
main_sigset blocks p =
    let handling = record p { handled = true } in
    if blocks then (0, p.blocked, record handling { blocked = true }) else (1, p.blocked, handling)

-- `sigprocmask(SIG_SETMASK, &oldset, NULL)`, at which pending signals arrive.
abbrev pub take_interrupt : Process → Process
take_interrupt p =
    if p.pending_interrupt then deliver interrupt (record p { pending_interrupt = false }) else p

abbrev pub take_terminate : Process → Process
take_terminate p =
    if p.pending_terminate then deliver terminate (record p { pending_terminate = false }) else p

unfoldable pub restore : (oldset : Bool) → Process → Process
restore true p = record p { blocked = true }
restore false p = take_terminate (take_interrupt (record p { blocked = false }))

-- `logfilename`
abbrev pub logfilename : Text
logfilename =
    47 ∷ 118 ∷ 97 ∷ 114 ∷ 47 ∷ 108 ∷ 111 ∷ 99 ∷ 97 ∷ 108 ∷ 47 ∷ 108 ∷ 111 ∷ 103 ∷ 47 ∷ 109 ∷ 111
    ∷ 110 ∷ 97 ∷ 114 ∷ 99 ∷ 104 ∷ 46 ∷ 108 ∷ 111 ∷ 103 ∷ []

-- `MCMCHLOG_DEBUG`
abbrev pub debug : ℕ
debug = 1

abbrev pub configured : (fd : Option ℕ) → Option Env → Option (Env × List Event)
configured fd none = none
configured fd (some env) =
    let named = (set_log_file_name env logfilename).1 in
    let (status, env', events) = open_log_file (set_log_level named debug).1 fd in
    some (env', events)

-- `createEnvironmentInstanceFromContext`; `memory` is what malloc leaves, and `fd` what `open` returns.
-- `none` is a write to a field of NULL.
unfoldable pub create_from_context :
    (memory : Option Env) → (fd : Option ℕ) → Option (Env × List Event)
create_from_context memory fd = configured fd (initilize memory).1
