-- ===== src/Queue/Tests.antt =====
-- Runs of the single-producer queue, and its theorems at a concrete queue.
use mcmp.Common.{ℕ, ◌≡◌, refl, none, [], ◌∷◌, arith}
use mcmp.Queue.{Queue, create, refused, wrote, push, IsValid, items, Push, push_lem}

-- Two items, 8 and then 9, round the end of four cells.
abbrev wrapped : Queue ℕ
wrapped = record { cells = 4; item_size = 8; head = 1; tail = 3; payload = 9 ∷ 0 ∷ 0 ∷ 8 ∷ [] }

wrapped-IsValid : IsValid wrapped
wrapped-IsValid = record {
  head_in = omega arith;
  tail_in = omega arith;
  room = omega arith;
  fits = omega arith;
}

pushes :
    ((push wrapped 7).0 ≡ wrote 1)
    × ((push (push wrapped 7).1 6).0 ≡ refused)
    × (items 0 (push wrapped 7).1 ≡ 8 ∷ 9 ∷ 7 ∷ [])
    × (create {A = ℕ} none 8 4 ≡ none)
unfolding push create
pushes = (refl, refl, refl, refl)

push_lem_example : Push 0 wrapped 7 (push wrapped 7)
push_lem_example = push_lem 0 wrapped 7 wrapped-IsValid
