-- ===== src/Ledger.antt =====
-- internal/ledger/ledger.go: the persistent command ledger.
pub mod Status
pub mod Table
pub mod Store
pub mod Keys
pub mod Cases
pub mod History
pub mod Lifecycle
pub mod Finality
pub mod Audit
pub mod AuditHistory
pub mod Outcomes
pub mod Reservations
pub mod Refusals
pub mod Retention
pub mod Schema
pub mod Columns
pub mod Migration
