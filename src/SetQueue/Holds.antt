-- ===== src/SetQueue/Holds.antt =====
-- What it is for a set queue to hold a list of indices.
use mcmp.Common.{
  ℕ, ◌+◌, ◌-◌, ◌*◌, ◌^◌, ◌≤◌, ◌<◌, ◌≡◌, Option, List, Each, leb, ltb, if◌then◌else◌, length,
}
use mcmp.Ring.{held, contents, length-contents}
use mcmp.Status.{Status}
use mcmp.Bitmap.{IsBytes, bit_at}
use mcmp.SetQueue.{SetQueue}
use mcmp.SetQueue.Spec.{mem, Distinct}

-- How far cell `i` lies behind the tail.
abbrev distance : ℕ → ℕ → ℕ → ℕ
distance n tail i = if leb tail i then i - tail else i + n - tail

-- The set queue `squ` holds the indices `q`, oldest first.
pub record Holds (squ : SetQueue) (q : List ℕ) : Type 0 where
  pub two : 2 ≤ squ.bitslength
  pub fits : squ.bitslength < 2 ^ 60
  pub head_in : squ.head < squ.bitslength
  pub tail_in : squ.tail < squ.bitslength
  pub room : squ.bitslength ≤ length squ.items
  pub values_room : squ.bitslength ≤ 8 * length squ.values
  pub ready_room : squ.bitslength ≤ 8 * length squ.ready
  pub values_bytes : IsBytes squ.values
  pub ready_bytes : IsBytes squ.ready
  pub items_held : contents squ.items squ.bitslength 0 squ.tail squ.head ≡ q
  pub in_set : (v : ℕ) → v < squ.bitslength → bit_at squ.values v ≡ (if mem v q then 1 else 0)
  pub is_ready :
      (i : ℕ)
      → i < squ.bitslength
      → bit_at squ.ready i ≡ (
          if ltb (distance squ.bitslength squ.tail i) (held squ.bitslength squ.tail squ.head)
          then 1
          else 0)
  pub distinct : Distinct q
  pub in_range : Each (λ v. v < squ.bitslength) q

-- One operation, on the set queue and on the list.
abbrev pub Pushes : SetQueue × Status → Status × List ℕ → Type 0
Pushes (squ, status) (status', q) = (status ≡ status') × Holds squ q

abbrev pub Takes : SetQueue × Status × Option ℕ → Status × Option ℕ × List ℕ → Type 0
Takes (squ, status, item) (status', item', q) = (status ≡ status') × (item ≡ item') × Holds squ q

pub count :
    (squ : SetQueue) (q : List ℕ) → Holds squ q → length q ≡ held squ.bitslength squ.tail squ.head
count squ q v =
    rw (← v.items_held)
      (length-contents squ.items squ.bitslength 0 squ.tail squ.head v.tail_in v.head_in)
