-- ===== src/Routines/Pool/Tests.antt =====
-- Runs of a pool, and its theorems at concrete pools.
use mcmp.Common.{ℕ, zero, suc, Option, ◌≡◌, refl, arith, none, some, [], ◌∷◌}
use mcmp.Bitmap.{clean_order, enable_bit, disable_bit, is_enabled_bit, is_disabled_bit}
use mcmp.Routines.Pool.{
  Identifier, made, create, link, starting, returned, entry, entry_step, owner_step, joining, freed,
  System, Moves, here, owns, turns, linked,
}
use mcmp.Routines.Pool.Safety.{IsOrderly, Moves-IsOrderly}

abbrev blank : Identifier
blank = record { start = 9; pipeline = none }

abbrev first_only : ℕ → Option ℕ
first_only zero = some 40
first_only (suc i) = none

-- The second thread is not made.
links :
    link first_only 7
      (record { poolname = 3; length = 2; identifiers = blank ∷ blank ∷ []; bitmap = 0 ∷ [] })
    ≡ record {
      poolname = 3;
      length = 2;
      identifiers =
          record { start = 7; pipeline = some 40 } ∷ record { start = 7; pipeline = none } ∷ [];
      bitmap = 0 ∷ [];
    }
unfolding link mcmp.Routines.Pool.link_loop
links = refl

-- The pool of one thread from its start to its destruction; the handler returns 6.
abbrev sixes : ℕ → ℕ
sixes i = 6

lifetime :
    (s : System) × Moves 1 sixes (linked 1) s × (s.owner ≡ freed) × (s.thread 0 ≡ returned (some 6))
unfolding linked entry owner_step entry_step clean_order enable_bit disable_bit is_enabled_bit
    is_disabled_bit native.Mathlib.Decide.ℕ_discrete
lifetime =
    let begun : Moves 1 sixes (linked 1) _ = owns (owns (owns (turns here 0) refl) refl) refl in
    let worked : Moves 1 sixes (linked 1) _ = turns (turns (turns begun 0) 0) 0 in
    let stopped : Moves 1 sixes (linked 1) _ = turns (owns (owns worked refl) refl) 0 in
    (_, owns (owns stopped refl) refl, refl, refl)

Moves-IsOrderly_example : IsOrderly 1 (omega arith) sixes lifetime.0
Moves-IsOrderly_example = Moves-IsOrderly 1 (omega arith) sixes lifetime.1
