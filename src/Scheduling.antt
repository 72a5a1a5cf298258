-- ===== src/Scheduling.antt =====
-- scheduling/: shifts, templates and coverage.
pub mod Model
pub mod Queries
pub mod Rules
pub mod Service
pub mod Bookings
pub mod Kept
pub mod Released
pub mod Approval
pub mod Limits
pub mod Cells
pub mod Planning
pub mod Suggestions
pub mod Handlers
pub mod Targets
mod Tests
