-- ===== src/Connections.antt =====
-- internal/connection/connection.go: the connections of the daemon and who is behind them.
pub mod Connection
pub mod Manager
pub mod Peers
pub mod Closing
