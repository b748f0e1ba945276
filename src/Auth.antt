-- ===== src/Auth.antt =====
-- auth.py: roles, and bearer tokens with a back-off on failures. SHA-256 is a parameter.
pub mod Rbac
pub mod Tokens
pub mod Backoff
pub mod Validate
mod Tests
