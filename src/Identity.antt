-- ===== src/Identity.antt =====
-- internal/identity: the capabilities of a Slurm user.
pub mod Resolver
pub mod Privilege
pub mod Sacctmgr
pub mod AccountLists
pub mod Accounts
