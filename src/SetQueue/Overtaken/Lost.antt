-- ===== src/SetQueue/Overtaken/Lost.antt =====
-- The schedule by which the pushes of as many threads as the queue has cells are lost.
use native.Mathlib.Decide.{ℕ_discrete}
use mathlib.Core.Logic.{if_pos, if_neg}
use mathlib.Core.Path.{subst}
use mcmp.Common.{
  ℕ, zero, suc, ◌+◌, ◌-◌, ◌/◌, ◌^◌, ◌≤◌, ◌<◌, ◌≡◌, ◌≢◌, refl, sym, ap, ◌∙◌, inl, inr, arith, true,
  false, some, none, List, ◌==◌, leb, if◌then◌else◌, Bool-cases, bit_and, size_add,
}
use mcmp.Status.{Status, success, overflow, isempty, alrop}
use mcmp.Bitmap.Laws.{byte_test, bit_at-clean_order, clean_order-IsBytes, length-clean_order}
use mcmp.SetQueue.{SetQueue, byte_of, mask_of, PushPc, made, create}
use mcmp.SetQueue.Once.{run_push, run_push-eq-push_once, push_once, take_once}
use mcmp.SetQueue.Threads.{Call, pushing, Shared, assign, Moves, none_yet, then_one, begin_push}
use mcmp.SetQueue.Alone.{alone, alone-run_push, alone-others, alone-Moves}
use mcmp.SetQueue.Overtaken.{IsStuck, Claimed, claim, opened, closes}

module _ (n : ℕ) (small : n < 2 ^ 60) where
  -- The other threads in between.
  record Waits (from : Shared) (k : ℕ) (s : Shared) : Type 0 where
    moves : Moves from s
    claimed : Claimed n k s.squ
    stalled : s.thread 0 ≡ pushing 0 (PushPc.storing 0)
    returned : (i : ℕ) → 0 < i → i < k → s.thread i ≡ pushing i (PushPc.done success)

  abbrev begun : Shared → ℕ → Shared
  begun s k = record s { thread = assign s.thread k (pushing k PushPc.start) }

  begun_self : (s : Shared) (k : ℕ) → (begun s k).thread k ≡ pushing k PushPc.start
  begun_self s k = if_pos (ℕ_discrete k k) refl _ (s.thread k)

  begun_others : (s : Shared) (k j : ℕ) → k ≢ j → (begun s k).thread j ≡ s.thread j
  begun_others s k j differ = if_neg (ℕ_discrete k j) differ _ (s.thread j)

  overtakes :
      (from s : Shared) (k : ℕ)
      → 0 < k
      → k < n
      → Waits from k s
      → Waits from (k + 1) (alone 9 k (begun s k))
  overtakes from s k later free v =
      let (queue, mine) = alone-run_push 9 k k PushPc.start (begun s k) (begun_self s k) in
      let (status, claimed) = claim n small k s.squ later free v.claimed in
      let once : run_push 9 k s.squ PushPc.start
          ≡ ((push_once k s.squ).0, PushPc.done (push_once k s.squ).1) =
        run_push-eq-push_once k s.squ in
      let others : (j : ℕ) → k ≢ j → (alone 9 k (begun s k)).thread j ≡ s.thread j =
        λ j differ. alone-others 9 k j (begun s k) differ ∙ begun_others s k j differ in
      record {
        moves = alone-Moves 9 k (begun s k) (then_one v.moves (begin_push k k));
        claimed =
            subst (Claimed n (k + 1)) (sym (queue ∙ ap (λ (p : SetQueue × PushPc). p.0) once))
              claimed;
        stalled = others 0 (λ e. omega arith) ∙ v.stalled;
        returned = λ i positive below. elim (ℕ_discrete k i) [
          | yes same ↦
              subst (λ (j : ℕ). (alone 9 k (begun s k)).thread j ≡ pushing j (PushPc.done success))
                same
                (mine
                  ∙ ap (λ (p : SetQueue × PushPc). pushing k p.1) once
                  ∙ ap (λ (st : Status). pushing k (PushPc.done st)) status)
          | no differ ↦ others i differ ∙ v.returned i positive (omega arith)
        ];
      }

  all_overtake :
      (from s : Shared) (k : ℕ) → k + 1 ≤ n → Waits from 1 s → (t : Shared) × Waits from (k + 1) t
  all_overtake from s zero below v = (s, v)
  all_overtake from s (suc k) below v =
      let (t, w) = all_overtake from s k (omega arith) v in
      let same : k + 1 + 1 ≡ suc k + 1 = omega arith in
      (
        _,
        subst (λ (j : ℕ). Waits from j (alone 9 (k + 1) (begun t (k + 1)))) same
            (overtakes from t (k + 1) (omega arith) (omega arith) w),
      )

  starts : (s : Shared) → 2 ≤ n → Claimed n 0 s.squ → Waits s 1 (alone 5 0 (begun s 0))
  starts s two v =
      let (queue, mine) = alone-run_push 5 0 0 PushPc.start (begun s 0) (begun_self s 0) in
      let (at, claimed) = opened n small s.squ two v in
      record {
        moves = alone-Moves 5 0 (begun s 0) (then_one none_yet (begin_push 0 0));
        claimed = subst (Claimed n 1) (sym queue) claimed;
        stalled = mine ∙ ap (pushing 0) at;
        returned = λ i positive below. absurd (omega arith);
      }

  ends :
      (from s : Shared)
      → Waits from n s
      → (t : Shared) × Moves from t
        × ((i : ℕ) → i < n → t.thread i ≡ pushing i (PushPc.done success))
        × IsStuck n t.squ
  ends from s v =
      let (queue, mine) = alone-run_push 3 0 0 (PushPc.storing 0) s v.stalled in
      (
        alone 3 0 s,
        alone-Moves 3 0 s v.moves,
        (λ i below. elim (ℕ_discrete 0 i) [
          | yes same ↦
              subst (λ (j : ℕ). (alone 3 0 s).thread j ≡ pushing j (PushPc.done success)) same
                (mine ∙ ap (λ (p : SetQueue × PushPc). pushing 0 p.1) (closes n small s.squ))
          | no differ ↦ alone-others 3 0 i s differ ∙ v.returned i (omega arith) below
        ]),
        subst (IsStuck n) (sym (queue ∙ ap (λ (p : SetQueue × PushPc). p.0) (closes n small s.squ)))
            (record {
              bits = v.claimed.bits;
              meet = ground (arith, v.claimed.head_at, v.claimed.tail_at);
              values_bytes = v.claimed.values_bytes;
              all = v.claimed.present;
            }),
      )

-- What every later call comes to: a push of an index reports that it is in the queue already, and a take
-- that the queue is empty, and neither changes anything.
abbrev pub Refuses : ℕ → SetQueue → Type 0
Refuses n squ =
    ((x : ℕ) → push_once x squ ≡ (squ, (if leb n x then overflow else alrop)))
    × (take_once squ ≡ (squ, isempty, none))

stuck-Refuses : (n : ℕ) (squ : SetQueue) → IsStuck n squ → Refuses n squ
unfolding push_once take_once
stuck-Refuses n squ v =
    let meet : (squ.tail == squ.head) ≡ true = ground (arith, v.meet) in
    (
      (λ x. elim (Bool-cases (leb n x)) [
        | inl out ↦
            let beyond : leb squ.bitslength x ≡ true = ground (arith, v.bits) in
            rw (beyond, out) refl
        | inr inside ↦
            let within : leb squ.bitslength x ≡ false = ground (arith, v.bits) in
            let held : (bit_and (byte_of squ.values x) (mask_of x) == 0) ≡ false =
              ground (arith, byte_test squ.values x v.values_bytes, v.all x (ground arith)) in
            rw (within, inside, held) refl
      ]),
      rw meet refl,
    )

overtaken :
    (n : ℕ) (s : Shared)
    → 2 ≤ n
    → n < 2 ^ 60
    → Claimed n 0 s.squ
    → (t : Shared) × Moves s t
      × ((i : ℕ) → i < n → t.thread i ≡ pushing i (PushPc.done success))
      × Refuses n t.squ
overtaken n s two small v =
    let (all, waits) =
      all_overtake n small s (alone 5 0 (begun n small s 0)) (n - 1) (omega arith)
        (starts n small s two v) in
    let whole : n - 1 + 1 ≡ n = omega arith in
    let (t, moves, returned, stuck) =
      ends n small s all (subst (λ (k : ℕ). Waits n small s k all) whole waits) in
    (t, moves, returned, stuck-Refuses n t.squ stuck)

-- A new set queue of any number of cells from two on, and as many threads, each of which pushes an
-- index of its own: their accesses can fall so that every push returns SUCCESS, and yet the queue looks
-- empty then and can never be used again: by one thread at a time, every push is refused and every take
-- returns ISEMPTY, and nothing changes.
pub pushes_are_lost :
    (n : ℕ) (memory : List ℕ) (thread : ℕ → Call)
    → 2 ≤ n
    → n < 2 ^ 60
    → (squ : SetQueue) × (create (some memory) n ≡ made squ)
      × ((t : Shared) × Moves (record { squ = squ; thread = thread }) t
          × ((i : ℕ) → i < n → t.thread i ≡ pushing i (PushPc.done success))
          × Refuses n t.squ)
unfolding create
pushes_are_lost n memory thread two small =
    let bytes = size_add n 7 / 8 in
    (
      _,
      refl,
      overtaken n _ two small (record {
        bits = refl;
        head_at = ground arith;
        tail_at = refl;
        values_room = omega (arith, length-clean_order bytes);
        ready_room = omega (arith, length-clean_order bytes);
        values_bytes = clean_order-IsBytes bytes;
        ready_bytes = clean_order-IsBytes bytes;
        unready = bit_at-clean_order bytes 0;
        absent = λ j beyond. bit_at-clean_order bytes j;
        present = λ j below. absurd (omega arith);
      }),
    )
