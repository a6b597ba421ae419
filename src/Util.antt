-- ===== src/Util.antt =====
-- The parts under src/ioproxy/util and src/ioproxy/os, and the status line of the console program.
pub mod FileSize
pub mod OsSignal
pub mod Status
