-- ===== src/Authorization.antt =====
-- internal/authorization: the registry of node operations and the authorizer.
pub mod Registry
pub mod Authorizer
pub mod Decisions
