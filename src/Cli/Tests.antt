-- ===== src/Cli/Tests.antt =====
-- A run of the loop of the server program.
use mcmp.Common.{◌≡◌, refl, [], ◌∷◌, List}
use mcmp.Cli.{interrupted, ready, Turn, told, waited, beat, process, update, stopped, run_loop}

abbrev evening : List Turn
evening = waited (ready 2) ∷ waited interrupted ∷ waited (ready 0) ∷ told ∷ waited (ready 1) ∷ []

ends : run_loop 148 evening ≡ (process ∷ update 2 ∷ beat ∷ process ∷ update 0 ∷ [], stopped)
unfolding run_loop
ends = refl
