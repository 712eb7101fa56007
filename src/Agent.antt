-- ===== src/Agent.antt =====
-- packages/agent: the credentials, the model gateway, the tool gateway and the loop of an agent.
pub mod Identity
pub mod Tools
pub mod Model
pub mod Runner
