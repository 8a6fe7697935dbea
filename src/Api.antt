-- ===== src/Api.antt =====
-- The presentation layer (api/): who may call a route, and the routes that hold logic of their
-- own.
pub mod Access
pub mod Users
pub mod RateLimit
pub mod Telemetry
pub mod Mobile
pub mod Missions
pub mod Exceptions
