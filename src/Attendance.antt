-- ===== src/Attendance.antt =====
-- attendance/: punches, breaks, anomalies and corrections.
pub mod Model
pub mod Queries
pub mod Rules
pub mod Service
pub mod Batches
pub mod Kiosk
pub mod Corrections
pub mod OnePunch
pub mod Detection
pub mod Punches
pub mod Clocked
pub mod Synced
pub mod Replay
pub mod Approvals
pub mod Requests
pub mod Newest
pub mod Closing
pub mod Authority
mod Tests
