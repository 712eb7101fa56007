-- ===== src/Agent/Model.antt =====
-- packages/agent/src/model: the gateway that every model call passes through.
pub mod Gateway
pub mod Anthropic
pub mod Fake
