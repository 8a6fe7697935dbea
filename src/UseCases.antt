-- ===== src/UseCases.antt =====
-- The use cases (application/use_cases/). The clock, fresh UUIDs and the libraries that sign or
-- hash enter as arguments.
pub mod CheckIn
pub mod HostQr
pub mod ConfirmHost
pub mod CheckOut
pub mod Establishments
pub mod Missions
pub mod Auth
