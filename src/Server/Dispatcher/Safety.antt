-- ===== src/Server/Dispatcher/Safety.antt =====
-- What holds of the writer and its owner at every moment.
use mcmp.Common.{◌≡◌, refl, inl, inr, arith, Bool, true, false, Bool-cases}
use mcmp.Server.Dispatcher.{
  Flags, WriterPc, blocking, testing, waiting, asleep, woken, looping, entering, resting, rested,
  idle, idle_asleep, idle_woken, dispatching, marking, marked, unmarking, unmarked, draining,
  returned, Reply, OwnerPc, created, raising, starting, running, sealing, closing, joining, freed,
  System, writer_step, woken_up, wakes, has_returned, owner_turn, Moves, here, owns, writes, stirs,
  at_creation,
}

-- The places where the writer holds its mutex.
abbrev holding : WriterPc → Bool
holding testing = true
holding waiting = true
holding (woken failed) = true
holding entering = true
holding (resting word) = true
holding rested = true
holding idle = true
holding (idle_woken failed) = true
holding dispatching = true
holding (marking word) = true
holding marked = true
holding (unmarking word) = true
holding unmarked = true
holding _ = false

-- The places behind the first loop.
abbrev past_start : WriterPc → Bool
past_start looping = true
past_start entering = true
past_start (resting word) = true
past_start rested = true
past_start idle = true
past_start idle_asleep = true
past_start (idle_woken failed) = true
past_start _ = false

-- The places where the writer dispatches clients.
abbrev dispatches : WriterPc → Bool
dispatches dispatching = true
dispatches (marking word) = true
dispatches marked = true
dispatches (unmarking word) = true
dispatches unmarked = true
dispatches draining = true
dispatches _ = false

abbrev returned_well : WriterPc → Bool
returned_well (returned false) = true
returned_well _ = false

abbrev pub closes : OwnerPc → Bool
closes closing = true
closes joining = true
closes freed = true
closes _ = false

abbrev pub joined : OwnerPc → Bool
joined freed = true
joined _ = false

-- The owner before it has set STARTED.
abbrev before_start : OwnerPc → Bool
before_start created = true
before_start (raising word) = true
before_start _ = false

-- What the word says that a thread has read and not yet written.
abbrev WriterHolds : WriterPc → OwnerPc → Type 0
WriterHolds (resting word) owner =
    (word.started ≡ true) × (word.ondispatch ≡ false) × (word.closure ≡ true → closes owner ≡ true)
WriterHolds _ owner = Unit

abbrev OwnerHolds : OwnerPc → Flags → Type 0
OwnerHolds (raising word) flags = (word.ondispatch ≡ false) × (word.closure ≡ false)
OwnerHolds (sealing word) flags = (word.ondispatch ≡ false) × (word.started ≡ flags.started)
OwnerHolds _ flags = Unit

abbrev pub IsGuarded : System → Type 0
IsGuarded s =
    (s.held ≡ holding s.pc)
    × (past_start s.pc ≡ true → s.flags.started ≡ true)
    × (s.flags.ondispatch ≡ false)
    × (dispatches s.pc ≡ false)
    × (returned_well s.pc ≡ true → closes s.owner ≡ true)
    × (s.flags.closure ≡ true → closes s.owner ≡ true)
    × (joined s.owner ≡ true → has_returned s.pc ≡ true)
    × (before_start s.owner ≡ true → s.flags.started ≡ false)
    × WriterHolds s.pc s.owner
    × OwnerHolds s.owner s.flags

writes-IsGuarded :
    (reply : Reply) (flags : Flags) (pc : WriterPc) (held : Bool) (owner : OwnerPc)
    → IsGuarded (record { flags = flags; pc = pc; held = held; owner = owner })
    → (let (flags', pc', held') = writer_step reply flags pc held in
        IsGuarded (record { flags = flags'; pc = pc'; held = held'; owner = owner }))
unfolding writer_step
writes-IsGuarded reply flags blocking held owner v = ground arith
writes-IsGuarded reply flags testing held owner v = ground arith
writes-IsGuarded reply flags waiting held owner v = ground arith
writes-IsGuarded reply flags asleep held owner v = ground arith
writes-IsGuarded reply flags (woken f) held owner v = ground arith
writes-IsGuarded reply flags looping held owner v = ground arith
writes-IsGuarded reply flags entering held owner v = ground arith
writes-IsGuarded reply flags (resting word) held owner v = ground arith
writes-IsGuarded reply flags rested held owner v = ground arith
writes-IsGuarded reply flags idle held owner v = ground arith
writes-IsGuarded reply flags idle_asleep held owner v = ground arith
writes-IsGuarded reply flags (idle_woken f) held owner v = ground arith
writes-IsGuarded reply flags dispatching held owner v = ground arith
writes-IsGuarded reply flags (marking word) held owner v = ground arith
writes-IsGuarded reply flags marked held owner v = ground arith
writes-IsGuarded reply flags (unmarking word) held owner v = ground arith
writes-IsGuarded reply flags unmarked held owner v = ground arith
writes-IsGuarded reply flags draining held owner v = ground arith
writes-IsGuarded reply flags (returned f) held owner v = ground arith

wakes-IsGuarded :
    (failed : Bool) (flags : Flags) (pc : WriterPc) (held : Bool) (owner : OwnerPc)
    → IsGuarded (record { flags = flags; pc = pc; held = held; owner = owner })
    → IsGuarded (wakes failed (record { flags = flags; pc = pc; held = held; owner = owner }))
wakes-IsGuarded failed flags blocking held owner v = ground arith
wakes-IsGuarded failed flags testing held owner v = ground arith
wakes-IsGuarded failed flags waiting held owner v = ground arith
wakes-IsGuarded failed flags asleep held owner v = ground arith
wakes-IsGuarded failed flags (woken f) held owner v = ground arith
wakes-IsGuarded failed flags looping held owner v = ground arith
wakes-IsGuarded failed flags entering held owner v = ground arith
wakes-IsGuarded failed flags (resting word) held owner v = ground arith
wakes-IsGuarded failed flags rested held owner v = ground arith
wakes-IsGuarded failed flags idle held owner v = ground arith
wakes-IsGuarded failed flags idle_asleep held owner v = ground arith
wakes-IsGuarded failed flags (idle_woken f) held owner v = ground arith
wakes-IsGuarded failed flags dispatching held owner v = ground arith
wakes-IsGuarded failed flags (marking word) held owner v = ground arith
wakes-IsGuarded failed flags marked held owner v = ground arith
wakes-IsGuarded failed flags (unmarking word) held owner v = ground arith
wakes-IsGuarded failed flags unmarked held owner v = ground arith
wakes-IsGuarded failed flags draining held owner v = ground arith
wakes-IsGuarded failed flags (returned f) held owner v = ground arith

-- The owner moves on.
passes :
    (pc : WriterPc) (owner owner' : OwnerPc)
    → (closes owner ≡ true → closes owner' ≡ true)
    → WriterHolds pc owner
    → WriterHolds pc owner'
passes (resting word) owner owner' on h = (h.0, h.1, λ e. on (h.2 e))
passes blocking owner owner' on h = tt
passes testing owner owner' on h = tt
passes waiting owner owner' on h = tt
passes asleep owner owner' on h = tt
passes (woken f) owner owner' on h = tt
passes looping owner owner' on h = tt
passes entering owner owner' on h = tt
passes rested owner owner' on h = tt
passes idle owner owner' on h = tt
passes idle_asleep owner owner' on h = tt
passes (idle_woken f) owner owner' on h = tt
passes dispatching owner owner' on h = tt
passes (marking word) owner owner' on h = tt
passes marked owner owner' on h = tt
passes (unmarking word) owner owner' on h = tt
passes unmarked owner owner' on h = tt
passes draining owner owner' on h = tt
passes (returned f) owner owner' on h = tt

owner_turn-IsGuarded :
    (destroys : Bool) (owner : OwnerPc) (flags : Flags) (pc : WriterPc) (held : Bool)
    → IsGuarded (record { flags = flags; pc = pc; held = held; owner = owner })
    → IsGuarded
        (owner_turn destroys owner (record { flags = flags; pc = pc; held = held; owner = owner }))
owner_turn-IsGuarded true created flags pc held v =
    let h = passes pc created (sealing flags) (λ e. e) v.8 in ground (arith, h)
owner_turn-IsGuarded false created flags pc held v =
    let h = passes pc created (raising flags) (λ e. e) v.8 in ground (arith, h)
owner_turn-IsGuarded destroys (raising word) flags pc held v =
    let h = passes pc (raising word) starting (λ e. e) v.8 in ground (arith, h)
owner_turn-IsGuarded destroys starting flags pc held v =
    let w = wakes-IsGuarded false flags pc held starting v in
    let h = passes (woken_up false pc held).0 starting running (λ e. e) w.8 in ground (arith, w, h)
owner_turn-IsGuarded destroys running flags pc held v =
    let h = passes pc running (sealing flags) (λ e. e) v.8 in ground (arith, h)
owner_turn-IsGuarded destroys (sealing word) flags pc held v =
    let h = passes pc (sealing word) closing (λ e. refl) v.8 in ground (arith, h)
owner_turn-IsGuarded destroys closing flags pc held v =
    let w = wakes-IsGuarded false flags pc held closing v in
    let h = passes (woken_up false pc held).0 closing joining (λ e. refl) w.8 in
    ground (arith, w, h)
owner_turn-IsGuarded destroys joining flags pc held v = elim (Bool-cases (has_returned pc)) [
  | inl over ↦
      let h = passes pc joining freed (λ e. refl) v.8 in
      rw over (
        v.0,
        v.1,
        v.2,
        v.3,
        λ e. refl,
        λ e. refl,
        λ e. over,
        λ e. absurd (ground (arith, e)),
        h,
        tt,
      )
  | inr waits ↦ rw waits v
]
owner_turn-IsGuarded destroys freed flags pc held v = v

-- The writer of a dispatcher and its owner, interleaved in any way, with waits that return by
-- themselves or fail, and flags whose changes can be lost; the owner can destroy a writer that it never
-- started. The writer holds its mutex exactly where its code does between a block or a
-- wait and the next wait or release, so that it has released it when it has returned. It enters its
-- second loop only after it was started, and returns without a failed wait only for a destruction; the
-- owner frees it only after it has returned. It never dispatches a client, since nothing sets
-- ONDISPATCH.
pub Moves-IsGuarded : {spurious : Bool} {s : System} → Moves spurious at_creation s → IsGuarded s
Moves-IsGuarded here = ground arith
Moves-IsGuarded (owns {s} m destroys) =
    owner_turn-IsGuarded destroys s.owner s.flags s.pc s.held (Moves-IsGuarded m)
Moves-IsGuarded (writes {s} m reply) =
    writes-IsGuarded reply s.flags s.pc s.held s.owner (Moves-IsGuarded m)
Moves-IsGuarded (stirs {s} m spurious failed) =
    wakes-IsGuarded failed s.flags s.pc s.held s.owner (Moves-IsGuarded m)
