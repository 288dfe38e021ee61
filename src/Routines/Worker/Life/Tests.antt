-- ===== src/Routines/Worker/Life/Tests.antt =====
-- An executor with two workers on the table at the start of the program.
use mcmp.Common.{replicate}
use mcmp.Bitmap.{clean_order}
use mcmp.Routines.Monitor.{zeroed, Table, static_monitors, static_slots}

abbrev all_free : Table
all_free = record { monitors = replicate static_monitors zeroed; slots = clean_order static_slots }
