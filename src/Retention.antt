-- ===== src/Retention.antt =====
-- retention/: which files of the scan results are kept.
pub mod Manager
pub mod Cleanup
mod Tests
