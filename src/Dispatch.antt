-- ===== src/Dispatch.antt =====
-- internal/dispatcher/dispatcher.go: the routing of messages.
pub mod Router
pub mod Identified
pub mod Handlers
pub mod Answers
pub mod Responses
