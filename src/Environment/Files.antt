-- ===== src/Environment/Files.antt =====
-- The descriptors that the log uses.
use mathlib.Core.Path.{subst}
use mathlib.Core.List.{append_assoc, append-nil}
use mcmp.Common.{
  ℕ, ◌≡◌, refl, inl, inr, arith, Bool, true, false, ◌||◌, Option, none, some, ℤ, pos, negsuc, List,
  [], ◌∷◌, ◌++◌, leb, ◌==◌, if◌then◌else◌, Bool-cases,
}
use mcmp.Status.{success}
use mcmp.Environment.{
  Text, initilize, info, Env, Event, opened, wrote, synced, closed, to_log, write_line, log_info,
  open_log_file, closed_file, close_log_file, env_close, set_log_level,
}

-- Which descriptors are open after an event.
abbrev after_event : (ℕ → Bool) → Event → ℕ → Bool
after_event open_fds (opened fd) k = if fd == k then true else open_fds k
after_event open_fds (closed fd) k = if fd == k then false else open_fds k
after_event open_fds _ k = open_fds k

-- Every event but an opening is on a descriptor that is open then, or on the standard output.
abbrev allowed : (ℕ → Bool) → Event → Bool
allowed open_fds (opened fd) = true
allowed open_fds (wrote fd line) = (fd == 1) || open_fds fd
allowed open_fds (synced fd) = open_fds fd
allowed open_fds (closed fd) = open_fds fd

abbrev pub IsSound : (ℕ → Bool) → List Event → Type 0
IsSound open_fds [] = Unit
IsSound open_fds (event ∷ events) =
    (allowed open_fds event ≡ true) × IsSound (after_event open_fds event) events

-- What the program does with its environment.
pub data Op : Type 0 where
  opens : (fd : Option ℕ) → Op
  closes : (line : Text) → Op
  logs : (level : ℕ) → (line : Text) → Op
  levels : (level : ℕ) → Op

abbrev op_events : Env → Op → Env × List Event
op_events env (opens fd) = let (status, env', events) = open_log_file env fd in (env', events)
op_events env (closes line) = let (status, env', events) = close_log_file env line in (env', events)
op_events env (logs level line) = (env, write_line (some env) level line)
op_events env (levels level) = let (status, env') = set_log_level env level in (env', [])

-- The operations, and then the end of the environment.
unfoldable pub lifetime : Env → List Op → (line closing : Text) → List Event
lifetime env [] line closing = env_close env line closing
lifetime env (op ∷ ops) line closing =
    let (env', events) = op_events env op in events ++ lifetime env' ops line closing

-- The descriptor of the environment is open.
abbrev pub Holds : (ℕ → Bool) → ℤ → Type 0
Holds open_fds (pos fd) = open_fds fd ≡ true
Holds open_fds (negsuc k) = Unit

to_log-IsSound :
    (open_fds : ℕ → Bool) (fd : ℤ) (line : Text) (rest : List Event)
    → Holds open_fds fd
    → IsSound open_fds rest
    → IsSound open_fds (to_log fd line ++ rest)
to_log-IsSound open_fds (pos fd) line rest h v = (ground (arith, h), v)
to_log-IsSound open_fds (negsuc k) line rest h v = v

write_line-IsSound :
    (open_fds : ℕ → Bool) (env : Env) (level : ℕ) (line : Text) (rest : List Event)
    → Holds open_fds env.logfd
    → IsSound open_fds rest
    → IsSound open_fds (write_line (some env) level line ++ rest)
unfolding write_line
write_line-IsSound open_fds env level line rest h v =
    let logged = to_log-IsSound open_fds env.logfd line rest h v in
    elim (Bool-cases (leb env.loglevel level)) [
      | inl shown ↦ rw shown (ground arith, logged)
      | inr hidden ↦ rw hidden logged
    ]

-- What is left after the file was closed, if it was open.
abbrev after_close : (ℕ → Bool) → ℤ → ℕ → Bool
after_close open_fds (pos fd) = after_event open_fds (closed fd)
after_close open_fds (negsuc k) = open_fds

closed_file-IsSound :
    (open_fds : ℕ → Bool) (env : Env) (fd : ℤ) (line : Text) (rest : List Event)
    → Holds open_fds env.logfd
    → Holds open_fds fd
    → IsSound (after_close open_fds fd) rest
    → IsSound open_fds ((closed_file env fd line).2 ++ rest)
closed_file-IsSound open_fds env (pos fd) line rest h g v =
    rw (append_assoc (log_info env line) (synced fd ∷ closed fd ∷ []) rest)
      (write_line-IsSound open_fds env info line (synced fd ∷ closed fd ∷ rest) h (g, (g, v)))
closed_file-IsSound open_fds env (negsuc k) line rest h g v = v

-- The descriptor that the environment keeps is none after a close.
closed_file-Holds :
    (open_fds : ℕ → Bool) (env : Env) (line : Text)
    → Holds open_fds env.logfd
    → Holds (after_close open_fds env.logfd) (closed_file env env.logfd line).1.logfd
closed_file-Holds open_fds env line h = by_fd env.logfd
  where
    by_fd : (fd : ℤ) → Holds (after_close open_fds fd) (closed_file env fd line).1.logfd
    by_fd (pos fd) = tt
    by_fd (negsuc k) = h

lifetime-IsSound :
    (line closing : Text) (ops : List Op) (open_fds : ℕ → Bool) (env : Env)
    → Holds open_fds env.logfd
    → IsSound open_fds (lifetime env ops line closing)
unfolding lifetime env_close close_log_file open_log_file set_log_level
lifetime-IsSound line closing [] open_fds env h =
    let ends = (closed_file env env.logfd closing).2 in
    write_line-IsSound open_fds env info line ends h (
      subst (IsSound open_fds) (append-nil ends)
        (closed_file-IsSound open_fds env env.logfd closing [] h h tt))
lifetime-IsSound line closing (opens none ∷ ops) open_fds env h =
    lifetime-IsSound line closing ops open_fds env h
lifetime-IsSound line closing (opens (some fd) ∷ ops) open_fds env h =
    (refl, lifetime-IsSound line closing ops _ _ (ground arith))
lifetime-IsSound line closing (closes l ∷ ops) open_fds env h =
    closed_file-IsSound open_fds env env.logfd l _ h h
      (lifetime-IsSound line closing ops _ _ (closed_file-Holds open_fds env l h))
lifetime-IsSound line closing (logs level l ∷ ops) open_fds env h =
    write_line-IsSound open_fds env level l _ h (lifetime-IsSound line closing ops open_fds env h)
lifetime-IsSound line closing (levels level ∷ ops) open_fds env h =
    lifetime-IsSound line closing ops open_fds _ h

-- An environment, from its creation over any openings, closings and lines of the log, at any levels,
-- to its end: it writes only to the standard output and to descriptors that it has opened and not
-- closed yet, and closes no descriptor that is not open.
pub initilize-IsSound :
    (memory : Env) (ops : List Op) (line closing : Text)
    → (env : Env) × (initilize (some memory) ≡ (success, some env))
      × IsSound (λ k. false) (lifetime env ops line closing)
unfolding initilize
initilize-IsSound memory ops line closing =
    (_, refl, lifetime-IsSound line closing ops (λ k. false) _ tt)
