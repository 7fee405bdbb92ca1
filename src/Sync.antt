-- ===== src/Sync.antt =====
-- internal/resource/node_adapter.go and node_synchronizer.go: the nodes of Slurm are read, validated
-- and put into the cache.
pub mod Adapter
pub mod Synchronizer
pub mod Snapshots
pub mod Refreshes
