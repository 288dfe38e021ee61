-- ===== src/Routines/Worker.antt =====
-- routines/src/linux/worker.c: workers that run tasks from a set queue. Each worker has a bit that is
-- set while it runs; the executor's monitor gives tasks to the workers whose bit is clear.
pub mod Sub
pub mod Cleanup
pub mod Beat
pub mod Tasks
pub mod Life
pub mod Handover
mod Tests
use mcmp.Common.{
  ℕ, zero, suc, ◌+◌, ◌*◌, ◌/◌, Bool, true, false, not, Option, none, some, List, [], ◌∷◌, size_add,
  leb, if◌then◌else◌, get_or, set,
}
use mcmp.Status.{Status, success}
use mcmp.Bitmap.{BitMap}
use mcmp.Bitmap.Scan.{
  Scan, found, missing, fault, hung, atomic_next_available_bit, atomic_next_occupied_bit,
}
use mcmp.Bitmap.Atomic.{try_enable_bit, try_disable_bit}

-- `struct McmchWorkerMonitor`, as far as its thread and the executor change it.
pub record Worker : Type 0 where
  pub taskdata : ℕ
  pub finished : Bool

abbrev pub blank : Worker
blank = record { taskdata = 0; finished = false }

-- `struct McmchWorkerExecutorHeader` with the bitmap and the workers behind it. The queue is of any
-- type `Q`.
pub record Executor (Q : Type 0) : Type 0 where
  pub size : ℕ
  pub bitmap_length : ℕ
  pub failstry : Bool
  pub bitmap : BitMap
  pub workers : List Worker
  pub queue : Q

-- The bitmap of the executor as other threads leave it for the load and the exchange of an attempt.
pub record Access : Type 0 where
  pub loaded : BitMap
  pub current : BitMap

abbrev pub or_else : Status × BitMap → Option BitMap → Option BitMap
or_else (success, bitmap) retry = some bitmap
or_else (_, bitmap) retry = retry

-- `__priv__mcmch_worker_monitor_try_disable_bit` of the bit `pos`, with `left` tries to go: the bitmap
-- after the exchange that succeeded.
unfoldable pub try_disable : (ℕ → Access) → (pos left tries : ℕ) → Option BitMap
try_disable accesses pos zero tries = none
try_disable accesses pos (suc left) tries =
    let rest = try_disable accesses pos left (tries + 1) in
    or_else (try_disable_bit (accesses tries).loaded (accesses tries).current pos) rest

-- The loop of `__priv__mcmch_worker_monitor_sub` up to the attempt that succeeds.
unfoldable pub try_enable : (ℕ → Access) → (pos left tries : ℕ) → Option BitMap
try_enable accesses pos zero tries = none
try_enable accesses pos (suc left) tries =
    let rest = try_enable accesses pos left (tries + 1) in
    or_else (try_enable_bit (accesses tries).loaded (accesses tries).current pos) rest

-- What a worker does on a beat: nothing, or it runs its task between setting its bit, which leaves
-- `entered`, and clearing it, which leaves `released`. `failstry` is the flag at the end.
pub data Ran : Type 0 where
  skipped : Ran
  ran : (entered : BitMap) → (released : Option BitMap) → (failstry : Bool) → Ran

-- `__priv__mcmch_worker_monitor_sub_secure_clean`: the flag after the attempts to clear the bit.
abbrev flag_after : Option BitMap → Bool → Bool
flag_after none failstry = true
flag_after (some bitmap) failstry = failstry

abbrev pub ran_from : Option BitMap → Option BitMap → Bool → Ran
ran_from none released failstry = skipped
ran_from (some entered) released failstry = ran entered released (flag_after released failstry)

-- `__priv__mcmch_worker_monitor_sub` of the worker `pos`; `failstry` is the flag before its end.
unfoldable pub sub : (enables disables : ℕ → Access) → (pos : ℕ) → Bool → Ran
sub enables disables pos failstry =
    ran_from (try_enable enables pos 10 0) (try_disable disables pos 10 0) failstry

-- What the executor's monitor does to a worker: it pings it, or gives it a task and pings it.
pub data Act : Type 0 where
  ping : (worker : ℕ) → Act
  give : (worker task : ℕ) → Act

-- `crashed` is a scan that reads out of the bitmap, or a loop that has used up its fuel.
pub data Beaten (Q : Type 0) : Type 0 where
  done : List Act → Executor Q → Beaten Q
  crashed : Beaten Q

module _ {Q : Type 0} where
  -- The scans of the executor's monitor, on a bitmap that no worker writes to meanwhile.
  abbrev pub next_available : Executor Q → ℕ → Scan
  next_available ex from = atomic_next_available_bit (λ _. ex.bitmap) from ex.bitmap_length

  abbrev pub next_occupied : Executor Q → ℕ → Scan
  next_occupied ex from = atomic_next_occupied_bit (λ _. ex.bitmap) from ex.bitmap_length

  abbrev pub quiet : Executor Q → ℕ → Access
  quiet ex k = record { loaded = ex.bitmap; current = ex.bitmap }

  abbrev pub prepend : Act → Beaten Q → Beaten Q
  prepend act (done acts ex) = done (act ∷ acts) ex
  prepend act crashed = crashed

  abbrev pub hand : Executor Q → (worker task : ℕ) → Q → Executor Q
  hand ex worker task queue = record ex {
    queue = queue;
    workers = set ex.workers worker (record { taskdata = task; finished = false });
  }

  -- After a take: on any state but SUCCESS the loop ends.
  abbrev pub given : Executor Q → ℕ → Q × Status × Option ℕ → (Executor Q → Beaten Q) → Beaten Q
  given ex worker (queue, success, some task) continue =
      prepend (give worker task) (continue (hand ex worker task queue))
  given ex worker (queue, status, task) continue = done [] (record ex { queue = queue })

  -- After the attempts to clear a bit: where they fail, the flag is set and the loop ends.
  abbrev pub after_try :
      Executor Q → Option BitMap → (Executor Q → Option (Executor Q)) → Option (Executor Q)
  after_try ex none continue = some (record ex { failstry = true })
  after_try ex (some bitmap) continue = continue (record ex { bitmap = bitmap })

  -- The loop of `__priv__mcmch_worker_monitor_run_cleanup_monitors` from the result of a scan on.
  unfoldable pub cleanup_loop : (fuel : ℕ) → Executor Q → Scan → Option (Executor Q)
  cleanup_loop zero ex scan = none
  cleanup_loop (suc fuel) ex missing = some ex
  cleanup_loop (suc fuel) ex (found bitidx) =
      let passed = cleanup_loop fuel ex (next_occupied ex (bitidx + 1)) in
      let cleaned =
        after_try ex (try_disable (quiet ex) bitidx 10 0)
          (λ ex'. cleanup_loop fuel ex' (next_occupied ex' (bitidx + 1))) in
      if leb ex.size bitidx
      then some ex
      else if not (get_or ex.workers bitidx blank).finished
      then passed
      else cleaned
  cleanup_loop (suc fuel) ex _ = none

  module _ (take : Q → Q × Status × Option ℕ) where
    -- The loop of `__priv__mcmch_worker_monitor_beat` from the result of a scan on. `take` is
    -- `mcmchSetQueueTake`.
    unfoldable pub beat_loop : (fuel : ℕ) → Executor Q → Scan → Beaten Q
    beat_loop zero ex scan = crashed
    beat_loop (suc fuel) ex missing = done [] ex
    beat_loop (suc fuel) ex (found bitidx) =
        let passed = prepend (ping bitidx) (beat_loop fuel ex (next_available ex (bitidx + 1))) in
        let served =
          given ex bitidx (take ex.queue)
            (λ ex'. beat_loop fuel ex' (next_available ex' (bitidx + 1))) in
        if leb ex.size bitidx
        then done [] ex
        else if not (get_or ex.workers bitidx blank).finished
        then passed
        else served
    beat_loop (suc fuel) ex _ = crashed

    -- More turns than the bitmap has bits are never made.
    abbrev pub enough : Executor Q → ℕ
    enough ex = 8 * ex.bitmap_length + 1

    abbrev pub beat_after : Option (Executor Q) → Beaten Q
    beat_after none = crashed
    beat_after (some ex) = beat_loop (enough ex) ex (next_available ex 0)

    -- `__priv__mcmch_worker_monitor_beat`
    unfoldable pub beat : Executor Q → Beaten Q
    beat ex =
        let cleared : Executor Q = record ex { failstry = false } in
        beat_after (
          if ex.failstry
          then cleanup_loop (enough ex) cleared (next_occupied cleared 0)
          else some cleared)
