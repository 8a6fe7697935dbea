-- ===== src/Safety/Answers.antt =====
-- Each visit operation stores its answer under its scope and the client's key.
use sigis_backend.Base.{◌≡◌, Text, arith}
use sigis_backend.Base.Float.{FloatOps}
use sigis_backend.Time.{Datetime}
use sigis_backend.Errors.{ok}
use sigis_backend.Domain.Presence.{GeofenceStatus}
use sigis_backend.Domain.Visit.{SiteVisit, HostValidationMode, mark_copresence_ok}
use sigis_backend.Store.{Db, Exec, Scope, Payload}
use sigis_backend.Store.Visits.{save_visit}
use sigis_backend.Store.Idempotency.{save_response}
use sigis_backend.Store.Evidence.{add_proof, add_event}
use sigis_backend.UseCases.CheckIn.{
  CheckInInspectorCommand, CheckInDraw, check_in_write, check_in_fresh,
}
use sigis_backend.UseCases.ConfirmHost.{
  ConfirmWorld, ConfirmHostCommand, confirm_mode, confirm_write, confirm_fresh,
}
use sigis_backend.UseCases.CheckOut.{CheckOutCommand, check_out_write, check_out_fresh}
use sigis_backend.Safety.CheckIn
use sigis_backend.Safety.CheckOut
use sigis_backend.Safety.ConfirmHost

-- The operation, where it succeeds, stores its answer and changes no other stored answer.
pub record Stores (s : Scope) (k : Text) (fresh : Exec Payload) (db : Db) : Type 0 where
  pub at :
      (p : Payload)
      → (fresh db).0 ≡ ok p
      → (now : Datetime) × ((fresh db).1.idempotency ≡ (save_response s k now p db).1.idempotency)

check_in_write_lem :
    (cmd : CheckInInspectorCommand) (draw : CheckInDraw) (gf : GeofenceStatus) (v : SiteVisit)
    (db : Db) (p : Payload)
    → (check_in_write cmd draw gf v db).0 ≡ ok p
    → (check_in_write cmd draw gf v db).1.idempotency
      ≡ (save_response
          (Scope.check_in cmd.mission_id)
          cmd.client_request_id
          draw.now
          p
          db).1.idempotency
unfolding check_in_write save_visit add_proof save_response
check_in_write_lem cmd draw gf v db p h = ground arith

pub check_in-Stores :
    (fl : FloatOps) (cmd : CheckInInspectorCommand) (draw : CheckInDraw) (db : Db)
    → Stores (Scope.check_in cmd.mission_id) cmd.client_request_id (check_in_fresh fl cmd draw) db
check_in-Stores fl cmd draw db = record {
  at = λ p h.
      let a = CheckIn.fresh-Accepted fl cmd draw db p h in
      (draw.now, rw a.whole (check_in_write_lem cmd draw a.status a.visit db p (rw a.whole at h)));
}

check_out_write_lem :
    (cmd : CheckOutCommand) (now : Datetime) (v : SiteVisit) (db : Db) (p : Payload)
    → (check_out_write cmd now v db).0 ≡ ok p
    → (check_out_write cmd now v db).1.idempotency
      ≡ (save_response
          (Scope.check_out cmd.site_visit_id)
          cmd.client_request_id
          now
          p
          db).1.idempotency
unfolding check_out_write save_visit save_response
check_out_write_lem cmd now v db p h = ground arith

pub check_out-Stores :
    (cmd : CheckOutCommand) (now : Datetime) (db : Db)
    → Stores (Scope.check_out cmd.site_visit_id) cmd.client_request_id (check_out_fresh cmd now) db
check_out-Stores cmd now db = record {
  at = λ p h.
      let a = CheckOut.fresh-Accepted cmd now db p h in
      (now, rw a.whole (check_out_write_lem cmd now a.closed db p (rw a.whole at h)));
}

confirm_write_lem :
    (w : ConfirmWorld) (cmd : ConfirmHostCommand) (mode : HostValidationMode) (v : SiteVisit)
    (db db' : Db) (p : Payload)
    → db'.idempotency ≡ db.idempotency
    → (confirm_write w cmd mode v db').0 ≡ ok p
    → (confirm_write w cmd mode v db').1.idempotency
      ≡ (save_response
          (Scope.confirm_host cmd.site_visit_id)
          cmd.client_request_id
          w.now
          p
          db).1.idempotency
unfolding confirm_write mark_copresence_ok save_visit add_proof add_event save_response
confirm_write_lem w cmd mode v db db' p e h = ground arith

pub confirm-Stores :
    (w : ConfirmWorld) (cmd : ConfirmHostCommand) (db : Db)
    → Stores (Scope.confirm_host cmd.site_visit_id) cmd.client_request_id (confirm_fresh w cmd) db
confirm-Stores w cmd db = record {
  at = λ p h.
      let a = ConfirmHost.fresh-Accepted w cmd db p h in
      let db' = (confirm_mode w cmd a.mode a.mission a.visit db).1 in
      let same = ConfirmHost.mode-SameTables w cmd a.mission a.visit db a.mode in
      (
        w.now,
        rw a.whole
            (confirm_write_lem w cmd a.mode a.located db db' p same.idempotency (rw a.whole at h)),
      );
}
