-- ===== src/Trials/Tests.antt =====
-- The program as it stands in the repository.
use mcmp.Common.{ℕ, ◌≡◌, ◌<◌, refl, arith, some, none, List, [], ◌∷◌, Each, replicate}
use mcmp.SetQueue.Spec.{mem}
use mcmp.Trials.{main, exits}
use mcmp.Trials.Laws.{Fresh, rows_of, takes_of, main_lem}

abbrev inds : List ℕ
inds = 0 ∷ 2 ∷ 5 ∷ 7 ∷ 15 ∷ 13 ∷ []

inds-Fresh : Fresh inds []
unfolding mem
inds-Fresh = (refl, (refl, (refl, (refl, (refl, (refl, tt))))))

inds_below : Each (λ x. x < 16) inds
inds_below =
    (omega arith, (omega arith, (omega arith, (omega arith, (omega arith, (omega arith, tt))))))

main_lem_example :
    (main (some (replicate 16 0)) 16 9 inds ≡ exits 0 (rows_of 16 0 6 inds (takes_of 16 0 6 inds)))
    × (main none 16 9 inds ≡ exits 1 [])
main_lem_example =
    main_lem (replicate 16 0) 16 9 inds (omega arith) (omega arith) (omega arith) inds-Fresh
      inds_below (omega arith)
