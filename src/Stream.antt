-- ===== src/Stream.antt =====
-- internal/stream: the Node change streams of the clients.
pub mod Registry
pub mod Delivery
pub mod Baseline
