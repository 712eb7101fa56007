-- ===== src/Governance.antt =====
-- packages/governance: the classified actions, the decision point, and versioned policies.
pub mod Action
pub mod PolicyDefinition
pub mod PolicyEngine
