-- ===== src/Api.antt =====
-- internal/api: the HTTP handlers, behind gin. A request has been bound to its struct, or not.
pub mod Users
pub mod Token
pub mod Auth
pub mod Keeps
pub mod Verified
pub mod Access
pub mod NewRow
pub mod Enrolled
pub mod Tasks
pub mod Changes
pub mod Removal
pub mod Own
pub mod Handlers
pub mod Owners
pub mod Twice
pub mod Account
pub mod Deletion
mod Tests
mod TaskTests
