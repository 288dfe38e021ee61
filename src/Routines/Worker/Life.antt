-- ===== src/Routines/Worker/Life.antt =====
-- `mcmchWorkerCreate`, `mcmchWorkerStart` and `mcmchWorkerDestroy` of routines/src/linux/worker.c: what
-- they do to the table of monitors.
pub mod Laws
mod Tests
use mcmp.Common.{ℕ, zero, suc, ◌+◌, Option, none, some, List, [], ◌∷◌}
use mcmp.Routines.Monitor.{Table, Created, refused, made, crashed}
use mcmp.Routines.Monitor

-- A monitor is created, without a look at the outcome, and started; starting what a failed creation
-- left is undefined. `pipeline` is what `pthread_create` stores.
abbrev pub begun : (pipeline : ℕ) → Created → Option (ℕ × Table)
begun pipeline (made slot table) = some (slot, Monitor.start table pipeline slot)
begun pipeline (refused status) = none
begun pipeline crashed = none

abbrev begin_monitor : (pipeline handler ctx : ℕ) → Table → Option (ℕ × Table)
begin_monitor pipeline handler ctx table = begun pipeline (Monitor.create table 0 handler ctx)

abbrev pub and_then :
    Option (ℕ × Table) → (Table → Option (List ℕ × Table)) → Option (List ℕ × Table)
and_then none continue = none
and_then (some (slot, table)) continue = elim (continue table) [
  | none ↦ none
  | some (slots, after) ↦ some (slot ∷ slots, after)
]

-- The loop of `mcmchWorkerStart` over `left` workers from worker `i` on: the slots of their monitors,
-- and the table. `worker i` stands for the address of worker `i`, `handler` for that of
-- `__priv__mcmch_worker_monitor_sub`.
unfoldable pub start_loop :
    (pipeline worker : ℕ → ℕ) → (handler i left : ℕ) → Table → Option (List ℕ × Table)
start_loop pipeline worker handler i zero table = some ([], table)
start_loop pipeline worker handler i (suc left) table =
    and_then (begin_monitor (pipeline i) handler (worker i) table)
      (λ table'. start_loop pipeline worker handler (i + 1) left table')

-- The loop of `mcmchWorkerDestroy` over the monitors of the workers, whose threads have been made and
-- end when they are signalled and joined.
unfoldable pub destroy_loop : List ℕ → Table → Table
destroy_loop [] table = table
destroy_loop (slot ∷ slots) table = destroy_loop slots (Monitor.after_join table slot)

-- `mcmchWorkerCreate`, given memory, and then `mcmchWorkerStart`: the monitor of the executor comes
-- first. `beat` stands for the address of `__priv__mcmch_worker_monitor_beat`.
unfoldable pub create_and_start :
    (master executor beat : ℕ) (pipeline worker : ℕ → ℕ) (handler length : ℕ)
    → Table
    → Option (List ℕ × Table)
create_and_start master executor beat pipeline worker handler length table =
    and_then (begin_monitor master beat executor table)
      (start_loop pipeline worker handler 0 length)
