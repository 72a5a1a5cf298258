-- ===== src/Transfers/Sweep.antt =====
-- What `runScheduledSweep` makes of the transfer table.
pub mod Rows
pub mod Loops
pub mod Settled
pub mod Twice
