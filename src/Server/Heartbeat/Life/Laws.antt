-- ===== src/Server/Heartbeat/Life/Laws.antt =====
-- What comes of the creation of a heartbeat.
use mcmp.Common.{ℕ, ◌<◌, ◌≡◌, refl, Bool, false, if◌then◌else◌, Option, none, some, length, get_or}
use mcmp.Status.{out_of_mem}
use mcmp.Bitmap.{bit_at, clean_order}
use mcmp.Bitmap.Laws.{bit_at-clean_order, length-clean_order}
use mcmp.Routines.Monitor.{
  static_monitors, Table, Created, refused, made, crashed, zeroed, undefined, destroyed,
}
use mcmp.Routines.Monitor
use mcmp.Routines.Monitor.Laws.{IsTable, Creates, create-Creates}
use mcmp.Routines.Monitor.RoundTrip.{SameSlots, undone}
use mcmp.Server.Heartbeat.Life.{
  Birth, null, born, faulty, create_instance, Death, ended, wild, destroy_instance, with_monitor,
}

-- What becomes of the monitor of a new heartbeat when it is destroyed: the thread that is joined is the
-- one that the slot knew before the creation, which is undefined if that one cannot be joined.
abbrev pub Dies : (joinable : ℕ → Bool) → (before : Table) → Option ℕ → Death → Type 0
Dies joinable before none death =
    ((k : ℕ) → k < static_monitors → bit_at before.slots k ≡ 1) × (death ≡ wild)
Dies joinable before (some slot) (ended r) =
    let old = (get_or before.monitors slot zeroed).pipeline in
    (bit_at before.slots slot ≡ 0)
    × ((after : Table) × IsTable after
        × SameSlots after before
        × (r ≡ (if joinable old then destroyed old after else undefined)))
Dies joinable before (some slot) wild = ⊥

abbrev pub IsBorn : (before : Table) → (word length : ℕ) → Birth → Type 0
IsBorn before word len (null status) = ⊥
IsBorn before word len (born hb table) =
    (hb.heartbeat.lock ≡ word)
    × (hb.heartbeat.available ≡ false)
    × (length hb.heartbeat.bitmap ≡ len)
    × ((k : ℕ) → bit_at hb.heartbeat.bitmap k ≡ 0)
    × ((joinable : ℕ → Bool) → Dies joinable before hb.monitor (destroy_instance joinable hb table))
IsBorn before word len faulty = ⊥

module _ (table : Table) (ok : IsTable table) where
  with_monitor-IsBorn :
      (word len self handler : ℕ) (r : Created)
      → Creates table handler self r
      → IsBorn table word len (
          with_monitor
            (record { lock = word; available = false; bitmap = clean_order len })
            table
            r)
  unfolding destroy_instance Monitor.destroy
  with_monitor-IsBorn word len self handler (refused status) c =
      (refl, refl, length-clean_order len, bit_at-clean_order len, λ joinable. (c.1, refl))
  with_monitor-IsBorn word len self handler (made slot after) c =
      let (valid, same) = undone table ok slot handler self after c in
      (
        refl,
        refl,
        length-clean_order len,
        bit_at-clean_order len,
        λ joinable. (c.2, (Monitor.after_join after slot, valid, same, rw (c.5.4) refl)),
      )
  with_monitor-IsBorn word len self handler crashed c = c

  -- On a well-formed table of monitors, the creation of a heartbeat without a pool fails exactly where
  -- malloc does. Otherwise its bitmap is clean and no sweep is announced, but its lock is what malloc
  -- left. It has a monitor that was free, or, where none is free, its field `monitor` is what malloc left
  -- and its destruction follows that pointer. Destroyed without a start, it joins the thread that the
  -- monitor's slot knew before, which is undefined if that one cannot be joined, and then leaves the
  -- slots as they were before the creation.
  pub create_instance_lem :
      (word len handler self : ℕ)
      → (create_instance none table 0 handler len self ≡ null out_of_mem)
        × IsBorn table word len (create_instance (some word) table 0 handler len self)
  unfolding create_instance
  create_instance_lem word len handler self =
      (refl, with_monitor-IsBorn word len self handler _ (create-Creates table ok handler self).0)
