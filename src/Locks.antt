-- ===== src/Locks.antt =====
-- internal/command/service.go, `lock`: one mutex per command, shared by the requests for it.
pub mod RequestLock
pub mod Counts
pub mod Changes
pub mod Invariant
pub mod Exclusion
