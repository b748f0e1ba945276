-- ===== src/Cluster.antt =====
-- cluster/manager.py: nodes and scans, the state backends, the shared state, the manager.
pub mod Node
pub mod Backend
pub mod Memory
pub mod Table
pub mod Sqlite
pub mod Agree
pub mod State
pub mod Manager
mod Tests
