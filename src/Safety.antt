-- ===== src/Safety.antt =====
-- What holds of the database between two requests.
pub mod Rollback
pub mod Invariant
pub mod CheckIn
pub mod ConfirmHost
pub mod CheckOut
pub mod Missions
pub mod Answers
pub mod Requests
pub mod Steps
pub mod Completion
pub mod Replay
pub mod Plans
pub mod Tokens
pub mod Outcomes
pub mod Moves
pub mod Needs
