-- ===== src/Routines/Monitor/Laws.antt =====
-- What creation and destruction do to the table of monitors.
use mcmp.Common.{
  ℕ, suc, ◌*◌, ◌<◌, ◌≡◌, ◌≢◌, refl, arith, true, false, ◌==◌, leb, if◌then◌else◌, length, get_or,
  set, length-set, get_or-set_self, get_or-set_ne,
}
use mcmp.Status.{overflow, not_implemented}
use mcmp.Bitmap.{IsBytes, bit_at}
use mcmp.Bitmap.Laws.{
  bit_at-enable_bit, bit_at-disable_bit, enable_bit-IsBytes, disable_bit-IsBytes, length-enable_bit,
  length-disable_bit, bit_at-le,
}
use mcmp.Bitmap.Scan.{Scan, found, missing, fault, hung}
use mcmp.Bitmap.Scan.Exact.{IsNextBit, next_available_bit-IsNextBit}
use mcmp.Routines.Monitor.{
  static_monitors, static_slots, Monitor, zeroed, Table, Created, refused, made, crashed, placed,
  create_static, create, after_join,
}

pub record IsTable (table : Table) : Type 0 where
  pub all_monitors : length table.monitors ≡ static_monitors
  pub all_slots : length table.slots ≡ static_slots
  pub bytes : IsBytes table.slots

-- What a creation promises: the first free monitor, marked and filled in, with nothing else touched,
-- or OVERFLOW where all are taken.
abbrev pub Creates : Table → ℕ → ℕ → Created → Type 0
Creates table handler ctx (refused status) =
    (status ≡ overflow) × ((k : ℕ) → k < static_monitors → bit_at table.slots k ≡ 1)
Creates table handler ctx (made slot after) =
    let monitor = get_or after.monitors slot zeroed in
    IsTable after
    × (slot < static_monitors)
    × (bit_at table.slots slot ≡ 0)
    × ((k : ℕ) → k < slot → bit_at table.slots k ≡ 1)
    × ((k : ℕ) → bit_at after.slots k ≡ (if slot == k then 1 else bit_at table.slots k))
    × ((monitor.pool ≡ 0)
        × (monitor.ctx ≡ ctx)
        × (monitor.beat ≡ handler)
        × (monitor.running ≡ false)
        × (monitor.pipeline ≡ (get_or table.monitors slot zeroed).pipeline))
    × ((k : ℕ) → slot ≢ k → get_or after.monitors k zeroed ≡ get_or table.monitors k zeroed)
Creates table handler ctx crashed = ⊥

module _ (table : Table) (ok : IsTable table) where
  taken : (k : ℕ) → bit_at table.slots k ≢ 0 → bit_at table.slots k ≡ 1
  taken k h = omega (arith, bit_at-le table.slots k, h)

  placed-Creates :
      (handler ctx : ℕ) (r : Scan)
      → IsNextBit 0 table.slots 0 (8 * static_slots) r
      → Creates table handler ctx (placed table handler ctx r)
  placed-Creates handler ctx (found slot) f =
      let inside : leb static_monitors slot ≡ false = ground (arith, f.1) in
      let old = get_or table.monitors slot zeroed in
      let monitor : Monitor = record old { pool = 0; ctx = ctx; beat = handler; running = false } in
      let here : get_or (set table.monitors slot monitor) slot zeroed ≡ monitor =
        get_or-set_self table.monitors slot monitor zeroed (omega (arith, f.1, ok.all_monitors)) in
      rw (inside, here)
        (
          record {
            all_monitors = omega (arith, length-set table.monitors slot monitor, ok.all_monitors);
            all_slots = omega (arith, length-enable_bit table.slots slot, ok.all_slots);
            bytes = enable_bit-IsBytes table.slots slot ok.bytes;
          },
          f.1,
          f.2,
          (λ k h. taken k (f.3 k (omega arith) h)),
          (λ k. bit_at-enable_bit table.slots slot k (omega (arith, f.1, ok.all_slots))),
          (refl, refl, refl, refl, refl),
          (λ k ne. get_or-set_ne table.monitors slot k monitor zeroed ne),
        )
  placed-Creates handler ctx missing f = (refl, λ k h. taken k (f k (omega arith) (omega arith)))
  placed-Creates handler ctx fault f = f
  placed-Creates handler ctx hung f = f

  -- `mcmchMonitorCreate` without a pool, on a table of 512 monitors and 64 bytes of slots, gives the
  -- first free monitor, stores the handler and the context in it with `running` cleared, marks its
  -- slot and touches nothing else; it reports OVERFLOW exactly when all are taken. With a pool it
  -- reports NOT_IMPLEMENTED.
  pub create-Creates :
      (handler ctx : ℕ)
      → Creates table handler ctx (create table 0 handler ctx)
        × ((pool : ℕ) → create table (suc pool) handler ctx ≡ refused not_implemented)
  unfolding create create_static
  create-Creates handler ctx = (
    placed-Creates handler ctx _ (
        next_available_bit-IsNextBit table.slots 0 static_slots (record {
          holds_bytes = ok.bytes;
          holds_len = omega (arith, ok.all_slots);
          fits = omega arith;
        })),
    λ pool. let other : (suc pool == 0) ≡ false = ground arith in rw other refl,
  )

  -- `mcmchMonitorDestroy`, once the thread is joined, of a monitor of the static table that belongs to no pool clears its slot,
  -- leaves every other slot as it was, clears its `running`, and keeps the table well formed.
  pub after_join-IsTable :
      (slot : ℕ)
      → slot < static_monitors
      → (get_or table.monitors slot zeroed).pool ≡ 0
      → IsTable (after_join table slot)
        × ((k : ℕ)
            → bit_at (after_join table slot).slots k
              ≡ (if slot == k then 0 else bit_at table.slots k))
        × ((get_or (after_join table slot).monitors slot zeroed).running ≡ false)
  unfolding after_join
  after_join-IsTable slot h none_pool =
      let monitor : Monitor = record (get_or table.monitors slot zeroed) { running = false } in
      let here : get_or (set table.monitors slot monitor) slot zeroed ≡ monitor =
        get_or-set_self table.monitors slot monitor zeroed (omega (arith, h, ok.all_monitors)) in
      let static : ((get_or table.monitors slot zeroed).pool == 0) ≡ true =
        ground (arith, none_pool) in
      rw (here, static)
        (
          record {
            all_monitors = omega (arith, length-set table.monitors slot monitor, ok.all_monitors);
            all_slots = omega (arith, length-disable_bit table.slots slot, ok.all_slots);
            bytes = disable_bit-IsBytes table.slots slot ok.bytes;
          },
          (λ k. bit_at-disable_bit table.slots slot k (omega (arith, h, ok.all_slots))),
          refl,
        )
