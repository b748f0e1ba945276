-- ===== src/L3.antt =====
-- l3/: sandbox policies.
pub mod Models
pub mod Rules
pub mod Policy
pub mod Validate
pub mod Load
pub mod Hash
pub mod Run
pub mod Engine
pub mod Patterns
pub mod Subprocess
pub mod Sample
mod Tests
