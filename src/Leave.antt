-- ===== src/Leave.antt =====
-- leave/: requests for time off, their approval and the balances that they draw on.
pub mod Model
pub mod Calendar
pub mod WorkingDays
pub mod Rules
pub mod Service
pub mod Ledger
pub mod Balances
mod Tests
