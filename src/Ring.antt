-- ===== src/Ring.antt =====
-- Indices that go round an array of `n` cells, as head and tail of the queues of utilities/src/common
-- do: items are written at the head and taken at the tail, the queue is empty where the two are
-- equal, and one cell always stays free.
use native.Mathlib.Nat.{mod-eq_of_lt, mod-eq-sub-mod}
use mcmp.Common.{
  ℕ, zero, suc, ◌+◌, ◌-◌, ◌%◌, ◌^◌, ◌≤◌, ◌<◌, ◌≡◌, ◌≢◌, ◌↔◌, refl, ap, inl, inr, arith, List, [],
  ◌∷◌, ◌++◌, ltb, leb, ◌==◌, if◌then◌else◌, Bool-cases, size_add, length, get_or, set,
  get_or-set_self, get_or-set_ne,
}

-- `(index + 1) % n` in `size_t`
abbrev pub next_index : ℕ → ℕ → ℕ
next_index n i = size_add i 1 % n

-- The cell after `i`, and how many cells lie from `tail` up to `head`, without remainders.
abbrev pub after : ℕ → ℕ → ℕ
after n i = if i + 1 == n then 0 else i + 1

abbrev pub held : ℕ → ℕ → ℕ → ℕ
held n tail head = if leb tail head then head - tail else head + n - tail

pub next_index-eq-after : (n i : ℕ) → i < n → n < 2 ^ 64 → next_index n i ≡ after n i
next_index-eq-after n i h small =
    let plain : size_add i 1 ≡ i + 1 = omega arith in
    rw plain (elim (Bool-cases (i + 1 == n)) [
      | inl last ↦
          let e : i + 1 ≡ n = ground arith in
          rw (last, e, mod-eq-sub-mod {n = n} {m = n} (omega arith))
            (omega (arith, mod-eq_of_lt {n = n - n} {m = n} (omega arith)))
      | inr inside ↦ rw (inside, mod-eq_of_lt {n = i + 1} {m = n} (ground arith))
    ])

module _ {ℓ} {A : Type ℓ} (items : List A) (n : ℕ) (default : A) where
  -- The `k` items from cell `i` on.
  abbrev slice : ℕ → ℕ → List A
  slice i zero = []
  slice i (suc k) = get_or items i default ∷ slice (after n i) k

  length-slice : (i k : ℕ) → length (slice i k) ≡ k
  length-slice i zero = refl
  length-slice i (suc k) = ap suc (length-slice (after n i) k)

-- An item that is written behind a slice extends it.
slice-set {ℓ} :
    {A : Type ℓ} (items : List A) (n : ℕ) (default v : A) (k i head : ℕ)
    → n ≤ length items
    → i < n
    → k < n
    → head ≡ (if ltb (i + k) n then i + k else i + k - n)
    → slice (set items head v) n default i (suc k) ≡ slice items n default i k ++ (v ∷ [])
slice-set items n default v zero i head room hi hk e =
    let here : head ≡ i = ground arith in rw (here, get_or-set_self items i v default (omega arith))
slice-set items n default v (suc k) i head room hi hk e =
    let elsewhere : head ≢ i = λ (s : head ≡ i). ground arith in
    rw (
      get_or-set_ne items head i v default elsewhere,
      slice-set items n default v k (after n i) head room (ground arith) (omega arith)
          (ground arith),
    )

-- The items that a queue with this head and tail holds, oldest first.
abbrev pub contents {ℓ} : {A : Type ℓ} → List A → ℕ → A → ℕ → ℕ → List A
contents items n default tail head = slice items n default tail (held n tail head)

module _ {ℓ} {A : Type ℓ} (items : List A) (n : ℕ) (default : A) (tail head : ℕ) (ht : tail < n)
    (hh : head < n) where
  pub length-contents : length (contents items n default tail head) ≡ held n tail head
  length-contents = length-slice items n default tail (held n tail head)

  -- Writing at the head and moving it on appends, unless the next cell is the tail.
  pub contents-push :
      (v : A)
      → n ≤ length items
      → after n head ≢ tail
      → contents (set items head v) n default tail (after n head)
        ≡ contents items n default tail head ++ (v ∷ [])
  contents-push v room free =
      let more : held n tail (after n head) ≡ suc (held n tail head) = ground arith in
      rw more (
        slice-set items n default v (held n tail head) tail head room ht (ground arith)
          (ground arith))

  -- Moving the tail on drops the oldest item, unless the queue is empty.
  pub contents-take :
      tail ≢ head
      → contents items n default tail head
        ≡ get_or items tail default ∷ contents items n default (after n tail) head
  contents-take some_item =
      let fewer : held n tail head ≡ suc (held n (after n tail) head) = ground arith in rw fewer

  -- The queue is full where the next cell is the tail, and empty where head and tail are equal.
  pub held-full : (after n head ≡ tail) ↔ (held n tail head + 1 ≡ n)
  held-full = (λ e. ground arith, λ e. ground arith)

  pub held-empty : (tail ≡ head) ↔ (held n tail head ≡ 0)
  held-empty = (λ e. ground arith, λ e. ground arith)
