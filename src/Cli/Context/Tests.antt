-- ===== src/Cli/Context/Tests.antt =====
-- Two signals while the server is set up.
use mcmp.Common.{◌≡◌, refl, true, false, [], ◌∷◌}
use mcmp.Cli.Context.{interrupt, terminate, arrive, arrive_all, main_sigset, restore}
use mcmp.Cli.Context.Laws.{at_start}

-- A second SIGINT adds nothing to one that is pending; without the mask the first one would count too.
runs :
    (restore false
      (arrive_all (interrupt ∷ terminate ∷ interrupt ∷ []) (main_sigset true (at_start 0)).2)).feeds
    ≡ 1
unfolding arrive_all arrive main_sigset restore
runs = refl

too_early : (arrive interrupt (at_start 0)).killed ≡ true
unfolding arrive
too_early = refl
