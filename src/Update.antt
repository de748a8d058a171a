-- ===== src/Update.antt =====
-- What internal/update decides: which version is newer (checker.go), when a release is announced
-- (scheduler.go, state.go), and which download is accepted (checker.go).
pub mod Version
pub mod VersionOrder
pub mod Scheduler
pub mod Persistence
pub mod Announced
pub mod Unchanged
pub mod Waits
pub mod Checksums
pub mod Download
pub mod Accepted
