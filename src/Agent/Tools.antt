-- ===== src/Agent/Tools.antt =====
-- packages/agent/src/tools: the gateway that every tool call passes through.
pub mod Gateway
pub mod Mcp
