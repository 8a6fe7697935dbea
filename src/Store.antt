-- ===== src/Store.antt =====
-- The database (infrastructure/persistence/sqlalchemy/models.py), one list of rows for each table,
-- and the operations on it as state passing. A row of a table that mirrors a domain object is that
-- object. Requests are served one after the other.
mod Tables
mod Session
pub mod Missions
pub mod Visits
pub mod Idempotency
pub mod Evidence
pub mod Binds
pub mod Reports
pub mod Roles
pub mod Users
pub mod Keeps
pub use Tables.*
unfoldable pub use Session.*
