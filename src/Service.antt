-- ===== src/Service.antt =====
-- internal/service: the handlers of queries and of capability requests.
pub mod Capabilities
pub mod Grants
pub mod Query
pub mod Answers
