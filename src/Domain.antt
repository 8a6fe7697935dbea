-- ===== src/Domain.antt =====
-- The domain layer (domain/).
pub mod Mission
pub mod Visit
pub mod Presence
pub mod Establishment
pub mod Exceptions
pub mod CoPresence
pub mod ClientTime
pub mod Windows
pub mod Geo
pub mod Anomalies
pub mod Roles
pub mod Users
pub mod AccessTokens
pub mod MobileEvents
pub mod Phone
