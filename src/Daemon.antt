-- ===== src/Daemon.antt =====
-- daemon/: the scan job stores, and what the HTTP server does with a request.
pub mod Job
pub mod Memory
pub mod Persistent
pub mod Restart
pub mod View
pub mod Calls
pub mod Access
pub mod Grants
pub mod Route
pub mod Authorized
pub mod Submit
pub mod Submitted
pub mod Sample
mod Tests
