-- ===== src/Server/Dispatcher/Resources.antt =====
-- What the creation of a writer gets and frees.
use mcmp.Common.{
  ℕ, zero, suc, ◌≡◌, refl, Bool, true, false, if◌then◌else◌, Option, none, some, List, [], ◌∷◌,
  ◌++◌,
}
use mcmp.Server.Dispatcher.{
  Resource, writer, queue, lock, thread, Event, gets, frees, create, destroyed,
}

-- How often the resource `r` is held after the events, from `count` on; `none` where it is freed
-- without being held.
abbrev is : Resource → Resource → Bool
is writer writer = true
is queue queue = true
is lock lock = true
is thread thread = true
is _ _ = false

abbrev freed_once : ℕ → Option ℕ
freed_once zero = none
freed_once (suc count) = some count

unfoldable held_after : Resource → List Event → ℕ → Option ℕ
held_after r [] count = some count
held_after r (gets other ∷ events) count =
    held_after r events (if is r other then suc count else count)
held_after r (frees other ∷ events) count =
    elim (if is r other then freed_once count else some count) [
      | none ↦ none
      | some left ↦ held_after r events left
    ]

-- A creation that fails has freed all that it got, and one that succeeds holds each resource once; the
-- destruction then frees each of them once. Nothing is freed that is not held.
abbrev Balanced : Resource → Bool × List Event → Type 0
Balanced r (false, events) = held_after r events 0 ≡ some 0
Balanced r (true, events) =
    (held_after r events 0 ≡ some 1) × (held_after r (events ++ destroyed) 0 ≡ some 0)

-- Whatever of the memory, the queue, the lock and the thread cannot be had, the creation of a writer
-- returns NULL and has freed all that it got, each once and nothing else; if nothing fails it has each
-- of the four once, and the destruction frees each of them once.
create-Balanced :
    (memory queued initilized made : Bool) (r : Resource)
    → Balanced r (create memory queued initilized made)
unfolding create held_after
create-Balanced false queued initilized made r = refl
create-Balanced true false initilized made writer = refl
create-Balanced true false initilized made queue = refl
create-Balanced true false initilized made lock = refl
create-Balanced true false initilized made thread = refl
create-Balanced true true false made writer = refl
create-Balanced true true false made queue = refl
create-Balanced true true false made lock = refl
create-Balanced true true false made thread = refl
create-Balanced true true true false writer = refl
create-Balanced true true true false queue = refl
create-Balanced true true true false lock = refl
create-Balanced true true true false thread = refl
create-Balanced true true true true writer = (refl, refl)
create-Balanced true true true true queue = (refl, refl)
create-Balanced true true true true lock = (refl, refl)
create-Balanced true true true true thread = (refl, refl)
