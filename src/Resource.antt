-- ===== src/Resource.antt =====
-- internal/resource: the nodes, their cache and its synchronization with Slurm.
pub mod Node
pub mod Cache
pub mod CacheLaws
pub mod Slurm
pub mod SlurmLaws
