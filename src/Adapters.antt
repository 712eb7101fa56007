-- ===== src/Adapters.antt =====
-- packages/adapters: the Postgres tables and the statements that the adapters run on them.
pub mod Board
pub mod Activity
pub mod Queue
pub mod Versions
pub mod Members
pub mod Sandbox
pub mod HumanCredentials
pub mod Profile
pub mod ObjectStore
pub mod Vector
