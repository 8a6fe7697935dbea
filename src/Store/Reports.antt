-- ===== src/Store/Reports.antt =====
-- The repositories of mission outcomes, exception requests and audit rows, in
-- infrastructure/persistence/sqlalchemy/extra_repos.py.
use sigis_backend.Base.{ℕ, Option, [], ◌∷◌, ◌++◌, ◌==◌, select, none, some}
use sigis_backend.Base.Table.{get, put}
use sigis_backend.Errors.{ok}
use sigis_backend.Domain.Mission.{MissionOutcome}
use sigis_backend.Domain.Exceptions.{ExceptionRequest, ExceptionRequestStatus}
use sigis_backend.Store.Tables.{Db, AuditLog}
use sigis_backend.Store.Session.{Exec}
use sigis_backend.Store.Visits.{scalar_one_or_none}

unfoldable pub get_outcome_by_mission : ℕ → Exec (Option MissionOutcome)
get_outcome_by_mission mid db = (
  scalar_one_or_none (select (λ (o : MissionOutcome). o.mission_id == mid) db.mission_outcomes),
  db,
)

unfoldable pub save_outcome : MissionOutcome → Exec (Unit {0})
save_outcome outcome db =
    (ok tt, record db { mission_outcomes = db.mission_outcomes ++ outcome ∷ [] })

unfoldable pub add_exception : ExceptionRequest → Exec (Unit {0})
add_exception req db = (ok tt, record db { exception_requests = db.exception_requests ++ req ∷ [] })

unfoldable pub get_exception : ℕ → Db → Option ExceptionRequest
get_exception xid db = get (λ (x : ExceptionRequest). x.id) xid db.exception_requests

-- `ExceptionRequestRepositoryImpl.update` writes no id, mission, author or creation time.
abbrev updated_exception : ExceptionRequest → ExceptionRequest → ExceptionRequest
updated_exception req row = record req {
  id = row.id;
  mission_id = row.mission_id;
  author_user_id = row.author_user_id;
  created_at = row.created_at;
}

abbrev write_exception : ExceptionRequest → Option ExceptionRequest → Db → Db
write_exception req none db = db
write_exception req (some row) db = record db {
  exception_requests =
      put (λ (x : ExceptionRequest). x.id) (updated_exception req row) db.exception_requests;
}

unfoldable pub update_exception : ExceptionRequest → Exec (Unit {0})
update_exception req db = (ok tt, write_exception req (get_exception req.id db) db)

abbrev pub write_status : ExceptionRequestStatus → Option ExceptionRequest → Db → Db
write_status s none db = db
write_status s (some row) db = record db {
  exception_requests =
      put (λ (x : ExceptionRequest). x.id) (record row { status = s }) db.exception_requests;
}

-- `ExceptionRequestRepositoryImpl.update_status`
unfoldable pub update_status : ℕ → ExceptionRequestStatus → Exec (Unit {0})
update_status xid s db = (ok tt, write_status s (get_exception xid db) db)

-- `AuditLogRepositoryImpl.add`
unfoldable pub add_audit_log : AuditLog → Exec (Unit {0})
add_audit_log row db = (ok tt, record db { audit_logs = db.audit_logs ++ row ∷ [] })
