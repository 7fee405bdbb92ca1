-- ===== src/Channel.antt =====
-- internal/channel/channel.go: the transport between Cockpit and the bridge.
pub mod Transport
pub mod Forwarding
