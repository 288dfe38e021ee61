-- ===== src/Server/Dispatcher/Tests.antt =====
-- The theorems on the dispatcher at concrete runs.
use mcmp.Common.{◌≡◌, refl, false}
use mcmp.Server.Dispatcher.{
  empty, returned, freed, System, writer_step, Moves, here, owns, writes, at_creation,
}
use mcmp.Server.Dispatcher.Safety.{IsGuarded, Moves-IsGuarded}

-- A writer that is started and destroyed before it runs.
short_life : (s : System) × Moves false at_creation s × (s.owner ≡ freed) × (s.pc ≡ returned false)
unfolding writer_step
short_life =
    let started : Moves false at_creation _ = owns (owns (owns here false) false) false in
    let closed : Moves false at_creation _ = owns (owns (owns started false) false) false in
    let over : Moves false at_creation _ = writes (writes (writes closed empty) empty) empty in
    (_, owns over false, refl, refl)

Moves-IsGuarded_example : IsGuarded short_life.0
Moves-IsGuarded_example = Moves-IsGuarded short_life.1
