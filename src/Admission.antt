-- ===== src/Admission.antt =====
-- admission/: the checks of a pod before it is admitted.
pub mod Validator
pub mod Conform
pub mod Webhook
mod Tests
