-- ===== src/Routines/Lock/Tests.antt =====
-- The theorems on locks at concrete slots.
use mcmp.Common.{ℕ, arith, false}
use mcmp.Bitmap.{clean_order, enable_bit}
use mcmp.Bitmap.Laws.{clean_order-IsBytes, length-clean_order}
use mcmp.Routines.Lock.{Round, create}
use mcmp.Routines.Lock.Laws.{IsShared, CreatesLock, create_lem}

-- Nobody holds a lock at the load, and another thread has taken the slot 9 at the exchange.
abbrev rounds : ℕ → Round
rounds k = record {
  scanned = λ i. clean_order 8;
  loaded = clean_order 8;
  current = enable_bit (clean_order 8) 9;
}

rounds-IsShared : (k : ℕ) → IsShared (rounds k)
rounds-IsShared k = record {
  scans = record {
    holds_bytes = λ i. clean_order-IsBytes 8;
    holds_len = λ i. omega (arith, length-clean_order 8);
    fits = omega arith;
  };
  loads = clean_order-IsBytes 8;
}

create_lem_example : CreatesLock rounds (create false rounds)
create_lem_example = create_lem rounds rounds-IsShared
