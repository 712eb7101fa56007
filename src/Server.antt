-- ===== src/Server.antt =====
-- apps/server: the HTTP handlers over the domain and its repositories.
pub mod WorkItems
pub mod Session
pub mod Password
pub mod Signup
pub mod Auth
pub mod Members
pub mod App
pub mod System
