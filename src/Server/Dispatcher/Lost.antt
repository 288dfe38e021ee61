-- ===== src/Server/Dispatcher/Lost.antt =====
-- A signal that the writer misses, and a flag that it overwrites.
use mcmp.Common.{◌≡◌, ◌∙◌, arith, refl, ap, Bool, true, false}
use mcmp.Server.Dispatcher.{
  asleep, idle_asleep, Reply, empty, joining, System, writer_step, Moves, here, owns, writes, stirs,
  owner_step, at_creation,
}

-- The writer waits for a signal, and its owner for the writer.
abbrev pub hung : System
hung = record {
  flags = record { started = true; closure = true; ondispatch = false; working = false };
  pc = asleep;
  held = false;
  owner = joining;
}

writes_to : Reply → System → System
writes_to reply s =
    let (flags, pc, held) = writer_step reply s.flags s.pc s.held in
    record s { flags = flags; pc = pc; held = held }

-- A state that no move of the two changes stays, unless a wait returns by itself.
stays :
    (h : System)
    → ((destroys : Bool) → owner_step destroys h ≡ h)
    → ((reply : Reply) → writes_to reply h ≡ h)
    → {s t : System} → s ≡ h
    → Moves false s t
    → t ≡ h
unfolding writes_to
stays h own write e here = e
stays h own write e (owns m destroys) =
    ap (owner_step destroys) (stays h own write e m) ∙ own destroys
stays h own write e (writes m reply) = ap (writes_to reply) (stays h own write e m) ∙ write reply
stays h own write e (stirs m spurious failed) = absurd (ground (arith, spurious))

-- The owner takes no lock between the flags and the signals. A writer that has tested STARTED and is
-- about to wait misses the signal of the start and that of the destruction: then it waits, and the
-- owner waits for it, and neither ends unless a wait returns without a signal or fails.
pub signals_lost : Moves false at_creation hung × ((t : System) → Moves false hung t → t ≡ hung)
unfolding writer_step writes_to
signals_lost =
    let waits : Moves false at_creation _ = writes (writes here empty) empty in
    let started : Moves false at_creation _ = owns (owns (owns waits false) false) false in
    let closed : Moves false at_creation _ = owns (owns (owns started false) false) false in
    (writes closed empty, λ t m. stays hung (λ d. refl) (λ r. refl) refl m)

-- The writer waits for a client, and its owner for the writer; the flag of the destruction is gone.
abbrev pub deaf : System
deaf = record {
  flags = record { started = true; closure = false; ondispatch = false; working = false };
  pc = idle_asleep;
  held = false;
  owner = joining;
}

-- The flags are bits of one word, which is read and then written. A writer that has read it to clear
-- WORKING when the destruction sets CLOSURE and signals writes the word back without CLOSURE and waits;
-- then it and the owner wait for each other, unless a wait returns without a signal or fails.
pub closure_lost : Moves false at_creation deaf × ((t : System) → Moves false deaf t → t ≡ deaf)
unfolding writer_step writes_to
closure_lost =
    let started : Moves false at_creation _ = owns (owns (owns here false) false) false in
    let reads : Moves false at_creation _ =
      writes (writes (writes (writes started empty) empty) empty) empty in
    let closed : Moves false at_creation _ = owns (owns (owns reads false) false) false in
    (
      writes (writes (writes closed empty) empty) empty,
      λ t m. stays deaf (λ d. refl) (λ r. refl) refl m,
    )
