-- ===== src/Routines/Monitor/Handler.antt =====
-- The beats of a monitor's thread.
use mcmp.Common.{
  ℕ, suc, ◌≡◌, refl, ap, Bool, true, false, not, none, some, List, [], ◌∷◌, Each, if◌then◌else◌,
  replicate,
}
use mcmp.Status.{Status, success, ovtimeout, critical}
use mcmp.Routines.Monitor.{Wake, eagain, eintr, other, handler_loop}

-- How many wakes come before the first at which the monitor has been stopped.
abbrev pub served : Bool → List Wake → ℕ
served false wakes = 0
served true [] = 0
served true (wake ∷ wakes) = if wake.running then suc (served wake.stays wakes) else 0

-- The thread of a monitor beats once, with SUCCESS, for each wake before the first at which `running`
-- is cleared, and not after it, if `sigwait` does not return -1: POSIX has it return a positive error
-- number. No beat has the state OVTIMEOUT or CRITICAL then.
handler_loop_lem :
    (running : Bool) (wakes : List Wake)
    → Each (λ (w : Wake). w.failed ≡ none) wakes
    → handler_loop running wakes ≡ replicate (served running wakes) success
unfolding handler_loop
handler_loop_lem false wakes ok = refl
handler_loop_lem true [] ok = refl
handler_loop_lem true (wake ∷ wakes) ok =
    one wake.running (handler_loop wake.stays wakes) (served wake.stays wakes)
      (handler_loop_lem wake.stays wakes ok.1)
  where
    one :
        (r : Bool) (rest : List Status) (n : ℕ)
        → rest ≡ replicate n success
        → (if not r
            then []
            else success ∷ elim wake.failed [
              | none ↦ rest
              | some eagain ↦ ovtimeout ∷ rest
              | some eintr ↦ rest
              | some other ↦ critical ∷ []
            ])
          ≡ replicate (if r then suc n else 0) success
    one true rest n e = rw ok.0 (ap (λ l. success ∷ l) e)
    one false rest n e = refl
