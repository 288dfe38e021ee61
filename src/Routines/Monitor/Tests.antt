-- ===== src/Routines/Monitor/Tests.antt =====
-- The theorems on monitors at a concrete table.
use mcmp.Common.{
  ℕ, suc, ◌≡◌, refl, true, false, none, List, [], ◌∷◌, ◌==◌, replicate, length-replicate,
}
use mcmp.Status.{not_implemented}
use mcmp.Bitmap.{clean_order}
use mcmp.Bitmap.Laws.{clean_order-IsBytes, length-clean_order}
use mcmp.Bitmap.Scan.{next_available_bit}
use mcmp.Routines.Monitor.{
  zeroed, Table, static_monitors, static_slots, refused, made, create, create_static, Wake,
}
use mcmp.Routines.Monitor.Laws.{IsTable, Creates, create-Creates}
use mcmp.Routines.Monitor.RoundTrip.{Destroys, create-destroy_roundtrip}

-- The table at the start of the program.
abbrev static_table : Table
static_table = record {
  monitors = replicate static_monitors zeroed;
  slots = clean_order static_slots;
}

static_table-IsTable : IsTable static_table
static_table-IsTable = record {
  all_monitors = length-replicate static_monitors zeroed;
  all_slots = length-clean_order static_slots;
  bytes = clean_order-IsBytes static_slots;
}

create-Creates_example :
    Creates static_table 5 6 (create static_table 0 5 6)
    × ((pool : ℕ) → create static_table (suc pool) 5 6 ≡ refused not_implemented)
create-Creates_example = create-Creates static_table static_table-IsTable 5 6

-- One ping, and then the one of the destruction.
abbrev wakes : List Wake
wakes =
    record { failed = none; running = true; stays = true }
    ∷ record { failed = none; running = false; stays = false }
    ∷ []

first_made : (table : Table) × (create static_table 0 5 6 ≡ made 0 table)
unfolding create create_static next_available_bit clean_order mcmp.Bits.ctz
first_made = (_, refl)

create-destroy_roundtrip_example : Destroys (λ thread. thread == 7) 7 0 static_table first_made.0
create-destroy_roundtrip_example =
    create-destroy_roundtrip static_table static_table-IsTable (λ thread. thread == 7) 7 0 5 6
      first_made.0 first_made.1 refl
