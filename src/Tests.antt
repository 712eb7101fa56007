-- ===== src/Tests.antt =====
-- Runs of the model at concrete inputs, and each theorem at an input that meets its hypotheses.
mod Samples
mod Core
mod Governance
mod Agent
mod Adapters
mod Server
mod Tables
mod Models
mod Runner
mod Passwords
mod Accounts
mod Requests
mod Stores
mod Adapting
