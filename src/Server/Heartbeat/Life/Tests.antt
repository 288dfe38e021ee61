-- ===== src/Server/Heartbeat/Life/Tests.antt =====
-- A heartbeat on the table of monitors at the start of the program.
use mcmp.Common.{◌≡◌, none, some, replicate, length-replicate}
use mcmp.Status.{out_of_mem}
use mcmp.Bitmap.{clean_order}
use mcmp.Bitmap.Laws.{clean_order-IsBytes, length-clean_order}
use mcmp.Routines.Monitor.{zeroed, Table, static_monitors, static_slots}
use mcmp.Routines.Monitor.Laws.{IsTable}
use mcmp.Server.Heartbeat.Life.{null, create_instance}
use mcmp.Server.Heartbeat.Life.Laws.{IsBorn, create_instance_lem}

abbrev unused : Table
unused = record { monitors = replicate static_monitors zeroed; slots = clean_order static_slots }

unused-IsTable : IsTable unused
unused-IsTable = record {
  all_monitors = length-replicate static_monitors zeroed;
  all_slots = length-clean_order static_slots;
  bytes = clean_order-IsBytes static_slots;
}

create_instance_lem_example :
    (create_instance none unused 0 5 2 6 ≡ null out_of_mem)
    × IsBorn unused 7 2 (create_instance (some 7) unused 0 5 2 6)
create_instance_lem_example = create_instance_lem unused unused-IsTable 7 2 5 6
