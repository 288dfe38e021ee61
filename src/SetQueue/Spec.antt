-- ===== src/SetQueue/Spec.antt =====
-- The promise of setqueue.c: a first-in first-out queue of distinct indices below its length, with one
-- cell less than that.
use mcmp.Common.{
  ℕ, ◌+◌, ◌<◌, ◌≡◌, refl, Bool, true, false, Option, none, some, List, [], ◌∷◌, ◌++◌, Each, arith,
  ◌==◌, leb, if◌then◌else◌, length,
}
use mcmp.Status.{Status, success, overflow, isempty, alrop}

unfoldable pub mem : ℕ → List ℕ → Bool
mem v [] = false
mem v (x ∷ q) = if x == v then true else mem v q

unfoldable pub push : ℕ → List ℕ → ℕ → Status × List ℕ
push n q v =
    if leb n v
    then (overflow, q)
    else if mem v q
    then (alrop, q)
    else if length q + 1 == n
    then (overflow, q)
    else (success, q ++ (v ∷ []))

unfoldable pub take : List ℕ → Status × Option ℕ × List ℕ
take [] = (isempty, none, [])
take (x ∷ q) = (success, some x, q)

abbrev pub Distinct : List ℕ → Type 0
Distinct [] = Unit
Distinct (x ∷ q) = (mem x q ≡ false) × Distinct q

pub mem-append_one :
    (v x : ℕ) (q : List ℕ) → mem v (q ++ (x ∷ [])) ≡ (if x == v then true else mem v q)
unfolding mem
mem-append_one v x [] = refl
mem-append_one v x (y ∷ q) = ground (arith, mem-append_one v x q)

pub Distinct-append_one :
    (q : List ℕ) (x : ℕ) → Distinct q → mem x q ≡ false → Distinct (q ++ (x ∷ []))
unfolding mem
Distinct-append_one [] x d m = (refl, tt)
Distinct-append_one (y ∷ q) x d m =
    (ground (arith, mem-append_one y x q), Distinct-append_one q x d.1 (ground arith))

pub Each-append_one :
    (n x : ℕ) (q : List ℕ) → Each (λ y. y < n) q → x < n → Each (λ y. y < n) (q ++ (x ∷ []))
Each-append_one n x [] e h = (h, tt)
Each-append_one n x (y ∷ q) e h = (e.0, Each-append_one n x q e.1 h)

pub mem-cons : (v x : ℕ) (q : List ℕ) → mem v (x ∷ q) ≡ (if x == v then true else mem v q)
unfolding mem
mem-cons v x q = refl
