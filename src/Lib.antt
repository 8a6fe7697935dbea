-- ===== src/Lib.antt =====
-- SIGIS backend: the inspection visits of schools.
--
-- A mission sends an inspector to an establishment in a time window. The inspector checks in on
-- the spot, a host confirms the co-presence (by position, by QR code or by SMS code), and the
-- inspector checks out. Each request is a use case that reads and writes the tables through
-- repositories, in one unit of work that commits or rolls back; the three visit operations store
-- their answer under a key of the client and give it again when the request is repeated.
--
-- The modules and what they model:
-- Base: numbers, lists, texts as lists of code points, tables as lists of rows. Base.Float is
--   the bit pattern of a float; its arithmetic is an argument (record FloatOps).
-- Time: datetimes in microseconds with an optional zone, and the normalisation `_aware`.
-- Errors: domain/errors.py and common/http_errors.py, without messages.
-- Domain: domain/mission, domain/site_visit, domain/presence, domain/establishment,
--   domain/exception_request and the rules of domain/shared. A transition returns the visit it
--   leaves; Domain.Visit.Lifecycle runs any transitions, refused ones included. The property
--   modules are Domain.Visit.Order and Domain.Windows. Domain.Roles, Users and Phone are
--   domain/identity, Domain.AccessTokens the payload of its tokens, Domain.Anomalies
--   domain/shared/anomaly_detection.py, and Domain.MobileEvents two tables of models.py.
-- Store: the tables of infrastructure/persistence/sqlalchemy/models.py as the record Db, the
--   session as explicit state with exceptions (Store.Session; `transaction` is uow.py), and the
--   repositories of repositories_impl.py and extra_repos.py (Missions, Visits, Idempotency,
--   Evidence, Reports). Store.Visits.Saved and Store.Idempotency.Keys hold their laws. Store.Roles
--   is role_permission_repo.py, on its own table, with the seeding in Store.Roles.Seeding, and
--   Store.Users auth_repos.py. Store.Missions.Queries are the mission queries with filters.
--   Store.Keeps is how a property passes through a unit of work.
-- UseCases: application/use_cases/check_in_inspector.py (CheckIn), confirm_host_presence.py
--   (ConfirmHost), check_out_visit.py (CheckOut), create_mission.py, mission_workflow.py and
--   create_exception_request.py (Missions, Establishments), common/host_qr_jwt.py (HostQr), and
--   application/use_cases/auth (Auth). A method `execute` is split into its guards, its middle and
--   its writes, in the order of the source.
-- Api: api/deps.py (Access), api/rate_limit.py (RateLimit), api/v1/users.py (Users), `update_mission` of
--   api/v1/missions.py (Missions), the changes of api/v1/exception_requests.py (Exceptions), the
--   batch of api/v1/mobile.py with its audit chain (Mobile), and the buffer of
--   api/middleware/access_log.py with its routes (Telemetry).
-- Safety: sequences of requests on visits (Safety.Requests) and what they keep; Safety.Completion
--   is a whole visit. The requests are those of the use cases
--   and `update_mission`. Accounts: sequences of requests on accounts and what they keep.
-- Tests: runs in a small world.
--
-- UUIDs are numbers that are only compared (and printed, in Base.Uuid). The clock readings and
-- the UUIDs that a request draws are its arguments. The scopes of stored answers are a data type
-- in place of the texts that the source formats. A stored answer is kept as a value in place of
-- its JSON text. The library `jwt` is an argument (records Jwt and AccessJwt), and so are the hash
-- of passwords, SHA-256, `str.lower` and the parsing of UUIDs. Foreign keys are not checked. A
-- unique column is checked at the write in place of the flush; a primary key, whose UUID the
-- request draws, is checked for accounts and devices only, and else a property
-- that needs an unused id says so. Times come back from the tables as they were stored, as from a
-- column with time zones; SQLite, the default in settings, loses the zone. `timedelta` is added to
-- readings of the clock without the bound of year 9999, which is tested where a mission's window
-- is widened. Requests are served one after the other: two sessions at once are not modelled, and
-- the start of the application, which purges stored answers after 30 days and seeds permissions,
-- is not one of the requests. No definition takes fuel: all recursion is on
-- lists or on a number of digits.
--
-- Not modelled: the routes not named above, which parse a request, call a use case and print its
-- answer; the list of audit rows, mail, logging, settings, and the paged and counting queries of
-- tables other than the missions.
pub mod Base
pub mod Time
pub mod Errors
pub mod Domain
pub mod Store
pub mod UseCases
pub mod Api
pub mod Accounts
pub mod Safety
mod Tests
