-- ===== src/Policies.antt =====
-- policy_versioned/: the store of the versions of policies.
pub mod Version
pub mod Store
pub mod Saved
mod Tests
