-- ===== src/Command.antt =====
-- internal/command/service.go: the Node command service.
pub mod World
pub mod Service
pub mod Execute
pub mod Handle
pub mod Steps
pub mod Cases
pub mod Calls
pub mod Refines
pub mod Once
pub mod Quiet
pub mod Authorized
pub mod Replay
pub mod Retries
pub mod Restarts
pub mod Executor
pub mod Effects
