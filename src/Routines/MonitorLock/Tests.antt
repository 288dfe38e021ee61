-- ===== src/Routines/MonitorLock/Tests.antt =====
-- The theorems on the locks of monitors at concrete threads.
use mcmp.Common.{ℕ, ◌+◌, ◌≡◌, ◌≢◌, refl, arith, false, ◌==◌, if◌then◌else◌}
use mcmp.Routines.MonitorLock.{owner, acquire, release, acquired, try_loop, try_acquire}
use mcmp.Routines.MonitorLock.Exclusion.{
  System, acquires, releases, Reach, here, later, Reach-exclusive,
}

abbrev open_lock : System
open_lock = record { word = 0; holds = λ i. false }

-- Thread `i` runs monitor `i + 1`.
abbrev own_monitor : ℕ → ℕ
own_monitor i = i + 1

named : (i : ℕ) → owner 9 (own_monitor i) ≢ 0
named i e = ground arith

apart : (i j : ℕ) → owner 9 (own_monitor i) ≡ owner 9 (own_monitor j) → i ≡ j
apart i j e = ground arith

-- Thread 1 gets the lock, and thread 2 does not; nor does its release take it from thread 1.
contended : (t : System) × Reach 9 own_monitor open_lock t
contended = (_, later (later (later here (acquires 1)) (acquires 2)) (releases 2))

-- The holder that the theorem finds alone is thread 1.
Reach-exclusive_example : ◌≡◌ {A = ℕ} 1 1
unfolding contended acquire release native.Mathlib.Decide.ℕ_discrete
Reach-exclusive_example =
    Reach-exclusive 9 own_monitor named apart (λ i. refl) contended.1 1 1 refl refl

-- The lock is free at the third turn.
abbrev busy_twice : ℕ → ℕ
busy_twice k = if k == 2 then 0 else 7

third_turn : try_acquire 9 1 busy_twice 16 ≡ acquired 0 1
unfolding try_acquire try_loop acquire
third_turn = refl
