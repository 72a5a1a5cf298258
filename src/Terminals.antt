-- ===== src/Terminals.antt =====
-- devices/devices.service.ts: the personal devices of employees and the terminals of stores, with the
-- rotating QR codes that the terminals show.
pub mod Qr
pub mod Model
pub mod Service
pub mod Codes
pub mod Accepted
pub mod Carried
pub mod Stopped
mod Tests
