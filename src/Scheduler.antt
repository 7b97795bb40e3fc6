-- ===== src/Scheduler.antt =====
-- internal/api/scheduler/scheduler.go: it hands running tasks to the queue, and takes in results.
pub mod Tasks
pub mod Dispatch
pub mod Cleanup
pub mod Services
pub mod Items
pub mod Notices
pub mod Results
mod Tests
pub mod Outcomes
pub mod Listener
pub mod Handover
