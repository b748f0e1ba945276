-- ===== src/Jobs.antt =====
-- ratelimit/queue.py: the priority job queue.
pub mod Heap
pub mod Queue
mod Tests
