-- ===== src/Cli/Program/Tests.antt =====
-- The program at concrete runs.
use mcmp.Common.{◌≡◌, refl, true, List, [], ◌∷◌}
use mcmp.Cli.{Turn, told, waited, ready, process, update, run_loop}
use mcmp.Cli.Program.{
  environment, server, broadcast, heartbeat, writer, opens, closes, flushes, sets_writer,
  sets_context, starts_writer, acts, logs, logs_plain, blocks, restores, exits, run_server, main,
}
use mcmp.Cli.Program.Laws.{Closes, main-Closes}

abbrev one_wait : List Turn
one_wait = waited (ready 1) ∷ told ∷ []

served_once : main 2 true true true one_wait ≡ (
  blocks
      ∷ logs_plain
      ∷ opens environment
      ∷ opens server
      ∷ opens broadcast
      ∷ opens heartbeat
      ∷ opens writer
      ∷ restores
      ∷ sets_writer
      ∷ sets_context
      ∷ starts_writer
      ∷ logs
      ∷ acts process
      ∷ acts (update 1)
      ∷ logs
      ∷ closes writer
      ∷ closes heartbeat
      ∷ flushes
      ∷ closes broadcast
      ∷ closes server
      ∷ closes environment
      ∷ [],
  exits 0,
)
unfolding main run_server run_loop
served_once = refl

main-Closes_example : Closes 2 true true true (main 2 true true true one_wait)
main-Closes_example = main-Closes 2 true true true one_wait
