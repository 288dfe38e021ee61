-- ===== src/Environment.antt =====
-- src/common/mcmp.c and src/linux/mcmp.c: the environment of the program; src/common/log.c and
-- src/linux/log.c: its log. A text is the list of its bytes, without the zero at its end.
pub mod Lines
pub mod Files
mod Tests
use mcmp.Common.{
  ℕ, zero, suc, ◌-◌, ◌≡◌, Bool, true, false, Option, none, some, ℤ, pos, negsuc, List, [], ◌∷◌,
  ◌++◌, leb, ◌==◌, if◌then◌else◌, get_or, get_elem?,
}
use mcmp.Status.{Status, success, not_implemented, out_of_mem, not_abspath}

abbrev pub Text : Type 0
Text = List ℕ

-- `MCMPLOG_MAX_LINE_SIZE`, `MCMPLOG_INFO`
abbrev pub max_line_size : ℕ
max_line_size = 4096

abbrev pub info : ℕ
info = 2

-- `struct _mcmpenv` with its `_mcmpenv_comm`
pub record Env : Type 0 where
  pub logfilepath : Option Text
  pub loglevel : ℕ
  pub logfd : ℤ

-- `mcmpNormalizeEnv`
abbrev normalize : Env → Env
normalize env = record env { logfilepath = none; loglevel = info }

-- `mcmpInitilizeEnvironment`; `memory` is what `malloc` leaves, or `none` for NULL.
unfoldable pub initilize : Option Env → Status × Option Env
initilize none = (out_of_mem, none)
initilize (some memory) = (success, some (record (normalize memory) { logfd = negsuc 0 }))

-- `mcmpSetEnvLogFileName`; 47 is the slash, and an empty text has the zero at its start.
unfoldable pub set_log_file_name : Env → Text → Status × Env
set_log_file_name env logfile =
    if get_or logfile 0 0 == 47
    then (success, record env { logfilepath = some logfile })
    else (not_abspath, env)

-- `mcmpSetEnvLogLevel`
unfoldable pub set_log_level : Env → ℕ → Status × Env
set_log_level env level = (success, record env { loglevel = level })

-- The calls of the system on descriptors; descriptor 1 is `STDOUT_FILENO`.
pub data Event : Type 0 where
  opened : (fd : ℕ) → Event
  wrote : (fd : ℕ) → Text → Event
  synced : (fd : ℕ) → Event
  closed : (fd : ℕ) → Event

-- `write` to `_env->logfd`
abbrev pub to_log : ℤ → Text → List Event
to_log (pos fd) line = wrote fd line ∷ []
to_log (negsuc k) line = []

-- `mcmchlogWriteLine`; `none` is NULL.
unfoldable pub write_line : Option Env → (level : ℕ) → Text → List Event
write_line none level line = wrote 1 line ∷ []
write_line (some env) level line =
    let logged = to_log env.logfd line in
    if leb env.loglevel level then wrote 1 line ∷ logged else logged

-- `snprintf` of a text into `size` bytes: the text is cut where it does not fit.
abbrev pub cut : (room : ℕ) → Text → Text
cut zero text = []
cut (suc room) [] = []
cut (suc room) (byte ∷ text) = byte ∷ cut room text

abbrev snprintf : (size : ℕ) → Text → Text
snprintf size text = cut (size - 1) text

-- `loglevels`
abbrev pub loglevels : List Text
loglevels =
    (84 ∷ 82 ∷ 65 ∷ 67 ∷ 69 ∷ [])
    ∷ (68 ∷ 69 ∷ 66 ∷ 85 ∷ 71 ∷ [])
    ∷ (73 ∷ 78 ∷ 70 ∷ 79 ∷ 32 ∷ [])
    ∷ (87 ∷ 65 ∷ 82 ∷ 78 ∷ 32 ∷ [])
    ∷ (69 ∷ 82 ∷ 82 ∷ 79 ∷ 82 ∷ [])
    ∷ []

-- `"[%s] [%s] : %s\\n"`
abbrev pub layout : (time name message : Text) → Text
layout time name message =
    (91 ∷ [])
    ++ (time
        ++ ((93 ∷ 32 ∷ 91 ∷ []) ++ (name ++ ((93 ∷ 32 ∷ 58 ∷ 32 ∷ []) ++ (message ++ (10 ∷ []))))))

-- The line of `mcmplogFormatted`; `none` is a read behind `loglevels`. `time` is what `strftime` left.
abbrev pub named : (time message : Text) → Option Text → Option Text
named time message none = none
named time message (some name) = some (snprintf max_line_size (layout time name message))

unfoldable pub formatted : (time : Text) → (level : ℕ) → (message : Text) → Option Text
formatted time level message = named time message (get_elem? loglevels level)

-- The line of `mcmchlog`, whose format and arguments make `text`.
unfoldable pub log_line : (time : Text) → (level : ℕ) → (text : Text) → Option Text
log_line time level text = formatted time level (snprintf (max_line_size - 100) text)

-- `mcmchlog` of one of the messages of the library, which have the level INFO.
abbrev pub log_info : Env → (line : Text) → List Event
log_info env line = write_line (some env) info line

-- `mcmchOpenLogFile`; `fd` is what `open` returns.
unfoldable pub open_log_file : Env → (fd : Option ℕ) → Status × Env × List Event
open_log_file env none = (not_implemented, env, [])
open_log_file env (some fd) = (success, record env { logfd = pos fd }, opened fd ∷ [])

-- `mcmchCloseLogFile`; `line` is its line in the log.
abbrev pub closed_file : Env → ℤ → Text → Status × Env × List Event
closed_file env (negsuc k) line = (not_implemented, env, [])
closed_file env (pos fd) line =
    (success, record env { logfd = negsuc 0 }, log_info env line ++ (synced fd ∷ closed fd ∷ []))

unfoldable pub close_log_file : Env → (line : Text) → Status × Env × List Event
close_log_file env line = closed_file env env.logfd line

-- `mcmpEnvClose`, up to `free`; `line` is its line in the log.
unfoldable pub env_close : Env → (line closing : Text) → List Event
env_close env line closing = log_info env line ++ (close_log_file env closing).2
