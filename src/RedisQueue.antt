-- ===== src/RedisQueue.antt =====
-- internal/pkg/redisqueue/client.go: the reliable queue between the scheduler and the crawlers.
pub mod Types
pub mod Call
pub mod Client
pub mod Janitor
pub mod View
pub mod Entries
pub mod Reliable
pub mod Calls
pub mod Outcomes
pub mod Late
pub mod Rescue
pub mod Stand
mod Tests
