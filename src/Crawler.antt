-- ===== src/Crawler.antt =====
-- internal/crawler: the worker that fetches pages. The children are parts of its files.
pub mod Throttler
pub mod Price
pub mod Address
pub mod Failure
pub mod BlockType
pub mod Unknown
pub mod Proxy
pub mod Crawl
pub mod Attempts
pub mod Recovery
pub mod Worker
pub mod Finished
pub mod Drain
pub mod Drained
pub mod Emptied
pub mod Exchange
pub mod Stale
pub mod Cookies
pub mod Aged
pub mod Visit
pub mod Visited
pub mod Tidy
mod Tests
mod WorkTests
