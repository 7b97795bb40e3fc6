-- ===== src/WorkerQueue.antt =====
-- internal/pkg/queue/queue.go: the in-memory job queue and its workers.
pub mod Queue
pub mod Steps
pub mod Accounts
pub mod Closing
mod Tests
