-- ===== src/Core.antt =====
-- packages/core/src/domain: the principals, the work that they share, and what agents run as.
pub mod Member
pub mod WorkItem
pub mod Persona
pub mod AgentCredential
