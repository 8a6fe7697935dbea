-- ===== src/Tests.antt =====
-- Runs of the modelled program at concrete inputs.
pub mod World
mod Visits
mod Missions
pub mod Tables
mod Completion
mod Accounts
mod Tokens
mod Api
mod Queries
mod Exceptions
