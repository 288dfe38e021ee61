-- ===== src/Cli/Program.antt =====
-- cli/src/linux/main.c: `main`, and `run_server` with what it opens before its loop and closes behind it.
-- What the creations return is not looked at there, so a part counts as open once it is created.
pub mod Laws
mod Tests
use mcmp.Common.{
  ℕ, zero, suc, ◌-◌, Bool, true, false, Option, none, some, List, [], ◌∷◌, ◌++◌, if◌then◌else◌, ltb,
  ◌==◌,
}
use mcmp.Cli.{Turn, Act, Ending, stopped, failed, overrun, waiting, run_loop}

-- What the program opens.
pub data Part : Type 0 where
  environment server broadcast heartbeat writer queue : Part

-- The calls of `run_server` and `main`: an opening, a closing, mcmchClientBroadcastFlush,
-- mcmchServerSetWriterDispatcher, mcmchEnvSetCurrentContext, mcmchDispatcherWriterStart, those of the
-- loop, a line of the log of the environment or without one, and the change of the mask of signals.
pub data Call : Type 0 where
  opens closes : Part → Call
  flushes sets_writer sets_context starts_writer : Call
  acts : Act → Call
  logs logs_plain blocks restores : Call

-- How the program ends: with a status, not at all, or by a write behind the events of the server.
pub data Exit : Type 0 where
  exits : (status : ℕ) → Exit
  runs breaks : Exit

-- The end of `run_server`, which stands twice in it.
abbrev pub cleanup : List Call
cleanup =
    closes writer
    ∷ closes heartbeat
    ∷ flushes
    ∷ closes broadcast
    ∷ closes server
    ∷ closes environment
    ∷ []

abbrev pub setup : List Call
setup =
    blocks
    ∷ logs_plain
    ∷ opens environment
    ∷ opens server
    ∷ opens broadcast
    ∷ opens heartbeat
    ∷ opens writer
    ∷ restores
    ∷ []

abbrev pub acting : List Act → List Call → List Call
acting [] rest = rest
acting (act ∷ others) rest = acts act ∷ acting others rest

-- What follows the loop.
abbrev pub ended : Ending → List Call × Exit
ended stopped = (logs ∷ cleanup, exits 0)
ended failed = (logs ∷ cleanup, exits 0)
ended overrun = ([], breaks)
ended waiting = ([], runs)

abbrev pub served : List Act × Ending → List Call × Exit
served (acted, ending) =
    let (rest, exit) = ended ending in
    (sets_writer ∷ sets_context ∷ starts_writer ∷ logs ∷ acting acted rest, exit)

abbrev pub before : List Call → List Call × Exit → List Call × Exit
before first (rest, exit) = (first ++ rest, exit)

-- `run_server`; `blocked` and `restored` tell whether the two calls of `sigprocmask` succeed.
unfoldable pub run_server : (blocked restored : Bool) → List Turn → List Call × Exit
run_server blocked restored turns =
    if blocked
    then before setup (if restored then served (run_loop 0 turns) else (logs ∷ cleanup, exits 1))
    else (blocks ∷ [], exits 1)

-- `main`: `argc`, and whether the first option is "serve".
unfoldable pub main : (argc : ℕ) → (serve blocked restored : Bool) → List Turn → List Call × Exit
main argc serve blocked restored turns =
    if ltb argc 2
    then ([], exits 1)
    else if serve
    then run_server blocked restored turns
    else (opens queue ∷ closes queue ∷ [], exits 1)
