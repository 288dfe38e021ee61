-- ===== src/Routines/Monitor/RoundTrip.antt =====
-- A monitor that is created, started and destroyed.
use native.Mathlib.Decide.{ℕ_discrete}
use mathlib.Core.Path.{subst}
use mcmp.Common.{
  ℕ, ◌<◌, ◌≡◌, ◌⊎◌, ◌∙◌, refl, ap, inl, inr, arith, Bool, true, if◌then◌else◌, get_or, set,
  length-set, get_or-set_self,
}
use mcmp.Bitmap.{bit_at}
use mcmp.Routines.Monitor.{
  Monitor, zeroed, Table, Created, refused, made, crashed, create, start, after_join, undefined,
  destroyed, destroy,
}
use mcmp.Routines.Monitor.Laws.{IsTable, Creates, create-Creates, after_join-IsTable}

-- Two tables with the same free slots.
abbrev pub SameSlots : Table → Table → Type 0
SameSlots a b = (k : ℕ) → bit_at a.slots k ≡ bit_at b.slots k

-- A creation on the destroyed table gives the same slot again.
abbrev pub Again : Table → ℕ → Created → Type 0
Again table slot (refused status) = ⊥
Again table slot (made slot' after) = (slot' ≡ slot) × IsTable after
Again table slot crashed = ⊥

-- What becomes of the monitor `slot` that is new in `after`, started with `thread` or not.
abbrev pub Destroys : (joinable : ℕ → Bool) → (thread slot : ℕ) → (table after : Table) → Type 0
Destroys joinable thread slot table after =
    let old = (get_or table.monitors slot zeroed).pipeline in
    ((last : Table) × (destroy joinable (start after thread slot) slot ≡ destroyed thread last)
      × IsTable last
      × SameSlots last table
      × ((handler' ctx' : ℕ) → Again table slot (create last 0 handler' ctx')))
    × ((last : Table) × (destroy joinable after slot
          ≡ (if joinable old then destroyed old last else undefined)))

module _ (table : Table) (ok : IsTable table) where
  pub undone :
      (slot handler ctx : ℕ) (after : Table)
      → Creates table handler ctx (made slot after)
      → IsTable (after_join after slot) × SameSlots (after_join after slot) table
  undone slot handler ctx after (ok', inside, free, before, marked, filled, others) =
      let (valid, cleared, stopped) = after_join-IsTable after ok' slot inside filled.0 in
      (
        valid,
        λ k. elim (ℕ_discrete slot k) [
          | yes same ↦ rw (← same) (ground (arith, cleared slot, free))
          | no differ ↦ ground (arith, cleared k, marked k)
        ],
      )

  -- After a start the slot names the new thread.
  started :
      (slot handler ctx thread : ℕ) (after : Table)
      → Creates table handler ctx (made slot after)
      → ((get_or (start after thread slot).monitors slot zeroed).pipeline ≡ thread)
        × IsTable (after_join (start after thread slot) slot)
        × SameSlots (after_join (start after thread slot) slot) table
  unfolding start
  started slot handler ctx thread after (ok', inside, free, before, marked, filled, others) =
      let monitor : Monitor = record (get_or after.monitors slot zeroed) {
        running = true;
        pipeline = thread;
      } in
      let here : get_or (set after.monitors slot monitor) slot zeroed ≡ monitor =
        get_or-set_self after.monitors slot monitor zeroed
          (omega (arith, inside, ok'.all_monitors)) in
      let runs : IsTable (start after thread slot) = record {
        all_monitors = omega (arith, length-set after.monitors slot monitor, ok'.all_monitors);
        all_slots = ok'.all_slots;
        bytes = ok'.bytes;
      } in
      let (valid, cleared, stopped) =
        after_join-IsTable (start after thread slot) runs slot inside
          (ap (λ (m : Monitor). m.pool) here ∙ filled.0) in
      (
        ap (λ (m : Monitor). m.pipeline) here,
        valid,
        λ k. elim (ℕ_discrete slot k) [
          | yes same ↦ rw (← same) (ground (arith, cleared slot, free))
          | no differ ↦ ground (arith, cleared k, marked k)
        ],
      )

  -- The first free slot is the same in both.
  again :
      (between : Table) (slot handler ctx handler' ctx' : ℕ) (after : Table) (r : Created)
      → Creates table handler ctx (made slot after)
      → SameSlots between table
      → Creates between handler' ctx' r
      → Again table slot r
  again between slot handler ctx handler' ctx' after (refused status) c same c' =
      absurd (omega (arith, c'.1 slot c.1, same slot, c.2))
  again between slot handler ctx handler' ctx' after (made slot' after') c same c' =
      let free : bit_at table.slots slot ≡ 0 = c.2 in
      let free' : bit_at between.slots slot' ≡ 0 = c'.2 in
      (
        elim (compare_lem slot' slot) [
          | inl equal ↦ equal
          | inr (inl less) ↦ absurd (omega (arith, c.3 slot' less, same slot', free'))
          | inr (inr more) ↦ absurd (omega (arith, c'.3 slot more, same slot, free))
        ],
        c'.0,
      )
    where
      compare_lem : (a b : ℕ) → (a ≡ b) ⊎ (a < b) ⊎ (b < a)
      compare_lem a b = grind arith
  again between slot handler ctx handler' ctx' after crashed c same c' = c'

  -- A monitor of the static table that is created and started, and destroyed while the thread that the
  -- start made can be joined: that thread is joined, the table is well formed and has its slots as they
  -- were before, and the next creation, whatever its handler and context, gives the same monitor again.
  -- A monitor that is created and never started is destroyed with a join of the thread that its slot
  -- knew before, which is undefined if that one cannot be joined.
  pub create-destroy_roundtrip :
      (joinable : ℕ → Bool) (thread slot handler ctx : ℕ) (after : Table)
      → create table 0 handler ctx ≡ made slot after
      → joinable thread ≡ true
      → Destroys joinable thread slot table after
  unfolding destroy
  create-destroy_roundtrip joinable thread slot handler ctx after e joins =
      let created : Creates table handler ctx (made slot after) =
        subst (Creates table handler ctx) e (create-Creates table ok handler ctx).0 in
      let (named, valid, same) = started slot handler ctx thread after created in
      let last = after_join (start after thread slot) slot in
      (
        (
          last,
          rw (named, joins) refl,
          valid,
          same,
          λ handler' ctx'.
              again last slot handler ctx handler' ctx' after _ created same
                (create-Creates last valid handler' ctx').0,
        ),
        (after_join after slot, rw (created.5.4) refl),
      )
