-- ===== src/Tenant.antt =====
-- tenant/: the registry of tenants and the scan job store that keeps their jobs apart.
pub mod Registry
pub mod Store
pub mod Isolation
mod Tests
