-- ===== src/Access.antt =====
-- Who may do what: common/types, common/guards, common/tenant, permissions/ and entitlements/.
pub mod Principal
pub mod Guards
pub mod Permissions
pub mod RateLimit
pub mod Entitlements
pub mod Limits
mod Tests
