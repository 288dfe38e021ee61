-- ===== src/Routines/Worker/Sub.antt =====
-- The bit of a worker while it runs its task.
use mcmp.Common.{ℕ, zero, suc, ◌+◌, ◌≡◌, refl, Bool, true, Option, none, some}
use mcmp.Status.{Status, success}
use mcmp.Bitmap.{BitMap, IsBytes, bit_at, enable_bit, disable_bit}
use mcmp.Bitmap.Atomic.{try_enable_bit_lem, try_disable_bit_lem, Attempt}
use mcmp.Routines.Worker.{
  Access, or_else, try_disable, try_enable, Ran, skipped, ran, ran_from, sub,
}

abbrev Enabled : (ℕ → Access) → ℕ → Option BitMap → Type 0
Enabled accesses pos none = Unit
Enabled accesses pos (some bitmap) =
    (k : ℕ) × (bit_at (accesses k).current pos ≡ 0) × (bitmap ≡ enable_bit (accesses k).current pos)

abbrev pub Disabled : (ℕ → Access) → ℕ → Option BitMap → Type 0
Disabled accesses pos none = Unit
Disabled accesses pos (some bitmap) = (k : ℕ) × (bitmap ≡ disable_bit (accesses k).current pos)

or_else-Enabled :
    (accesses : ℕ → Access) (pos k : ℕ) (r : Status × BitMap) (rest : Option BitMap)
    → (r.0 ≡ success → bit_at (accesses k).current pos ≡ 0)
    → Attempt (accesses k).current (enable_bit (accesses k).current pos) r
    → Enabled accesses pos rest
    → Enabled accesses pos (or_else r rest)
or_else-Enabled accesses pos k (success, bitmap) rest free e v = (k, free refl, e)
or_else-Enabled accesses pos k (_, bitmap) rest free e v = v

or_else-Disabled :
    (accesses : ℕ → Access) (pos k : ℕ) (r : Status × BitMap) (rest : Option BitMap)
    → Attempt (accesses k).current (disable_bit (accesses k).current pos) r
    → Disabled accesses pos rest
    → Disabled accesses pos (or_else r rest)
or_else-Disabled accesses pos k (success, bitmap) rest e v = (k, e)
or_else-Disabled accesses pos k (_, bitmap) rest e v = v

try_enable-Enabled :
    (accesses : ℕ → Access) (pos : ℕ)
    → ((k : ℕ) → IsBytes (accesses k).loaded)
    → (left tries : ℕ) → Enabled accesses pos (try_enable accesses pos left tries)
unfolding try_enable
try_enable-Enabled accesses pos bytes zero tries = tt
try_enable-Enabled accesses pos bytes (suc left) tries =
    let attempt =
      try_enable_bit_lem (accesses tries).loaded (accesses tries).current pos (bytes tries) in
    or_else-Enabled accesses pos tries _ _ attempt.0.0 attempt.0.1
      (try_enable-Enabled accesses pos bytes left (tries + 1))

pub try_disable-Disabled :
    (accesses : ℕ → Access) (pos left tries : ℕ)
    → Disabled accesses pos (try_disable accesses pos left tries)
unfolding try_disable
try_disable-Disabled accesses pos zero tries = tt
try_disable-Disabled accesses pos (suc left) tries =
    let attempt = try_disable_bit_lem (accesses tries).loaded (accesses tries).current pos in
    or_else-Disabled accesses pos tries _ _ attempt.1
      (try_disable-Disabled accesses pos left (tries + 1))

-- What a run of a worker promises.
abbrev pub Runs : (enables disables : ℕ → Access) → ℕ → Ran → Type 0
Runs enables disables pos skipped = Unit
Runs enables disables pos (ran entered none failstry) =
    Enabled enables pos (some entered) × (failstry ≡ true)
Runs enables disables pos (ran entered (some released) failstry) =
    Enabled enables pos (some entered) × Disabled disables pos (some released)

ran_from-Runs :
    (enables disables : ℕ → Access) (pos : ℕ) (entered released : Option BitMap) (failstry : Bool)
    → Enabled enables pos entered
    → Disabled disables pos released
    → Runs enables disables pos (ran_from entered released failstry)
ran_from-Runs enables disables pos none released failstry e d = tt
ran_from-Runs enables disables pos (some entered) none failstry e d = (e, refl)
ran_from-Runs enables disables pos (some entered) (some released) failstry e d = (e, d)

-- A worker runs its task only after it has itself turned its bit from clear to set, and when it is
-- done it has cleared that bit, or has set `failstry` to have the executor clear it. Whatever other
-- threads write between its accesses; what it loads are bytes.
pub sub-Runs :
    (enables disables : ℕ → Access) (pos : ℕ) (failstry : Bool)
    → ((k : ℕ) → IsBytes (enables k).loaded)
    → Runs enables disables pos (sub enables disables pos failstry)
unfolding sub
sub-Runs enables disables pos failstry bytes =
    ran_from-Runs enables disables pos _ _ failstry (try_enable-Enabled enables pos bytes 10 0)
      (try_disable-Disabled disables pos 10 0)
