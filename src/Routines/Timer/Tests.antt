-- ===== src/Routines/Timer/Tests.antt =====
-- The deadlines at a concrete time.
use mcmp.Routines.Timer.{TimeSpec}

abbrev late : TimeSpec
late = record { secs = 4; nanos = 900000000 }
