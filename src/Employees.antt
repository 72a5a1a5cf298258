-- ===== src/Employees.antt =====
-- employees/: the activation of logins.
pub mod Model
pub mod Activation
pub mod Applying
pub mod Seats
mod Tests
