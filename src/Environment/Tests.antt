-- ===== src/Environment/Tests.antt =====
-- Runs of the environment and of its log, and the theorems at concrete inputs.
use mcmp.Common.{◌≡◌, refl, false, none, some, pos, List, [], ◌∷◌}
use mcmp.Status.{success, not_abspath}
use mcmp.Environment.{Env, Text, initilize, set_log_file_name}
use mcmp.Environment.Files.{Op, opens, closes, logs, levels, IsSound, lifetime, initilize-IsSound}

abbrev noon : Text
noon = 49 ∷ 50 ∷ []

abbrev garbage : Env
garbage = record { logfilepath = none; loglevel = 77; logfd = pos 5 }

abbrev day : List Op
day = logs 3 noon ∷ opens (some 7) ∷ levels 4 ∷ logs 3 noon ∷ closes [] ∷ opens none ∷ []

initilize-IsSound_example :
    (env : Env) × (initilize (some garbage) ≡ (success, some env))
    × IsSound (λ k. false) (lifetime env day [] [])
initilize-IsSound_example = initilize-IsSound garbage day [] []

relative_path : set_log_file_name garbage (108 ∷ []) ≡ (not_abspath, garbage)
unfolding set_log_file_name
relative_path = refl
