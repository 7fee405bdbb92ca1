-- ===== src/Ipc.antt =====
-- internal/ipc/server.go: the requests of one connection.
pub mod Session
pub mod Replays
pub mod Outbound
pub mod Written
pub mod Server
pub mod Shutdown
