-- ===== src/Transfers.antt =====
-- transfers/: moving employees between stores.
pub mod Model
pub mod Service
pub mod Sweep
pub mod Lifecycle
pub mod Links
mod Tests
