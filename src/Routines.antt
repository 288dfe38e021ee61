-- ===== src/Routines.antt =====
-- The routines library: routines/src.
pub mod Lock
pub mod Monitor
pub mod MonitorLock
pub mod Timer
pub mod SignalRoutine
pub mod Consumer
pub mod Routine
pub mod Worker
pub mod Pool
