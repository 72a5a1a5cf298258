-- ===== src/Devices.antt =====
-- devices/: the registration of the device that an employee clocks in from.
pub mod Admitted
pub mod Model
pub mod Views
pub mod Service
pub mod OneActive
pub mod Registering
pub mod Gate
pub mod Renewed
pub mod Listing
mod Tests
