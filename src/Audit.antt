-- ===== src/Audit.antt =====
-- audit/logger.py: the audit log and its hash chain.
pub mod Event
pub mod Logger
pub mod Chain
pub mod Tamper
pub mod Query
mod Tests
