-- ===== src/Routines/MonitorLock/Exclusion.antt =====
-- Threads that acquire and release one lock, interleaved.
use native.Mathlib.Decide.{ℕ_discrete}
use mathlib.Core.Logic.{ite, if_pos, if_neg}
use mcmp.Common.{ℕ, ◌≡◌, ◌≢◌, sym, ap, ◌∙◌, inl, inr, arith, Bool, true, false, ◌==◌, Bool-cases}
use mcmp.Status.{Status, success}
use mcmp.Routines.MonitorLock.{owner, acquire, release}

-- The word, and which threads are between an acquisition and the next release that succeeded.
pub record System : Type 0 where
  pub word : ℕ
  pub holds : ℕ → Bool

abbrev pub update : (ℕ → Bool) → ℕ → Bool → ℕ → Bool
update holds i b j = ite (ℕ_discrete i j) b (holds j)

abbrev succeeded : Status → Bool → Bool → Bool
succeeded success b old = b
succeeded _ b old = old

module _ (main : ℕ) (monitor : ℕ → ℕ) where
  -- Any thread tries to acquire the lock, or to release it, whether it holds it or not.
  pub data Step (s : System) : System → Type 0 where
    acquires :
        (i : ℕ)
        → Step s (
            let (status, word) = acquire main (monitor i) s.word in
            record { word = word; holds = update s.holds i (succeeded status true (s.holds i)) })
    releases :
        (i : ℕ)
        → Step s (
            let (status, word) = release main (monitor i) s.word in
            record { word = word; holds = update s.holds i (succeeded status false (s.holds i)) })

  pub data Reach (from : System) : System → Type 0 where
    here : Reach from from
    later : {s t : System} → Reach from s → Step s t → Reach from t

  -- Whoever holds the lock is named by the word.
  abbrev IsOwned : System → Type 0
  IsOwned s = (i : ℕ) → s.holds i ≡ true → s.word ≡ owner main (monitor i)

  module _ (named : (i : ℕ) → owner main (monitor i) ≢ 0)
      (apart : (i j : ℕ) → owner main (monitor i) ≡ owner main (monitor j) → i ≡ j) where
    elsewhere :
        (holds : ℕ → Bool) (i j : ℕ) (b : Bool) → i ≢ j → update holds i b j ≡ true → holds j ≡ true
    elsewhere holds i j b differ h = sym (if_neg (ℕ_discrete i j) differ b (holds j)) ∙ h

    acquires-IsOwned :
        (s : System) (i : ℕ)
        → IsOwned s
        → (j : ℕ)
        → update s.holds i (succeeded (acquire main (monitor i) s.word).0 true (s.holds i)) j ≡ true
        → (acquire main (monitor i) s.word).1 ≡ owner main (monitor j)
    unfolding acquire
    acquires-IsOwned s i v j = elim (Bool-cases (s.word == 0)) [
      | inl free ↦ rw free (λ h. elim (ℕ_discrete i j) [
        | yes same ↦ ap (λ k. owner main (monitor k)) same
        | no differ ↦
            let e = v j (elsewhere s.holds i j true differ h) in
            absurd (named j (sym e ∙ ground arith))
      ])
      | inr busy ↦ rw busy (λ h. elim (ℕ_discrete i j) [
        | yes same ↦
            v i (sym (if_pos (ℕ_discrete i j) same (s.holds i) (s.holds j)) ∙ h)
            ∙ ap (λ k. owner main (monitor k)) same
        | no differ ↦ v j (elsewhere s.holds i j (s.holds i) differ h)
      ])
    ]

    releases-IsOwned :
        (s : System) (i : ℕ)
        → IsOwned s
        → (j : ℕ)
        → update s.holds i (succeeded (release main (monitor i) s.word).0 false (s.holds i)) j
          ≡ true
        → (release main (monitor i) s.word).1 ≡ owner main (monitor j)
    unfolding release
    releases-IsOwned s i v j = elim (Bool-cases (s.word == owner main (monitor i))) [
      | inl mine ↦ rw mine (λ h. elim (ℕ_discrete i j) [
        | yes same ↦
            (let e : false ≡ true = sym (if_pos (ℕ_discrete i j) same false (s.holds j)) ∙ h in
              absurd cc)
        | no differ ↦
            (let word : s.word ≡ owner main (monitor i) = ground arith in
              absurd (differ (apart i j (sym word ∙ v j (elsewhere s.holds i j false differ h)))))
      ])
      | inr other ↦ rw other (λ h. elim (ℕ_discrete i j) [
        | yes same ↦
            v i (sym (if_pos (ℕ_discrete i j) same (s.holds i) (s.holds j)) ∙ h)
            ∙ ap (λ k. owner main (monitor k)) same
        | no differ ↦ v j (elsewhere s.holds i j (s.holds i) differ h)
      ])
    ]

    Step-IsOwned : {s t : System} → IsOwned s → Step s t → IsOwned t
    Step-IsOwned {s = s} v (acquires i) = acquires-IsOwned s i v
    Step-IsOwned {s = s} v (releases i) = releases-IsOwned s i v

    Reach-IsOwned : {s t : System} → IsOwned s → Reach s t → IsOwned t
    Reach-IsOwned v here = v
    Reach-IsOwned v (later r step) = Step-IsOwned (Reach-IsOwned v r) step

    -- The threads exclude each other: however acquisitions and releases interleave, the releases of
    -- threads that do not hold the lock among them, from a state in which nobody holds the lock no two
    -- threads hold it at once, if the monitors that the threads count as are not NULL and are
    -- different.
    pub Reach-exclusive :
        {s t : System}
        → ((i : ℕ) → s.holds i ≡ false)
        → Reach s t
        → (i j : ℕ) → t.holds i ≡ true
        → t.holds j ≡ true
        → i ≡ j
    Reach-exclusive quiet r i j hi hj =
        let v = Reach-IsOwned (λ k h. let e : false ≡ true = sym (quiet k) ∙ h in absurd cc) r in
        apart i j (sym (v i hi) ∙ v j hj)
