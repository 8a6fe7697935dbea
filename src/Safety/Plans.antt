-- ===== src/Safety/Plans.antt =====
-- The three visit operations leave the missions, their outcomes and the exception requests alone.
use sigis_backend.Base.{◌≡◌, arith}
use sigis_backend.Base.Float.{FloatOps}
use sigis_backend.Time.{Datetime}
use sigis_backend.Errors.{ok}
use sigis_backend.Domain.Mission.{Mission}
use sigis_backend.Domain.Presence.{GeofenceStatus}
use sigis_backend.Domain.Visit.{SiteVisit, HostValidationMode, mark_copresence_ok}
use sigis_backend.Store.{Db, Payload}
use sigis_backend.Store.Visits.{save_visit}
use sigis_backend.Store.Idempotency.{save_response}
use sigis_backend.Store.Evidence.{add_proof, add_event, consume}
use sigis_backend.UseCases.CheckIn.{
  CheckInInspectorCommand, CheckInDraw, check_in_write, check_in_fresh,
}
use sigis_backend.UseCases.ConfirmHost.{
  ConfirmWorld, ConfirmHostCommand, confirm_mode, confirm_write, confirm_fresh,
}
use sigis_backend.UseCases.CheckOut.{CheckOutCommand, check_out_write, check_out_fresh}
use sigis_backend.Safety.CheckIn
use sigis_backend.Safety.CheckOut
use sigis_backend.Safety.ConfirmHost

pub record SamePlans (a b : Db) : Type 0 where
  pub missions : b.missions ≡ a.missions
  pub outcomes : b.mission_outcomes ≡ a.mission_outcomes
  pub exceptions : b.exception_requests ≡ a.exception_requests

check_in_write-SamePlans :
    (cmd : CheckInInspectorCommand) (draw : CheckInDraw) (gf : GeofenceStatus) (v : SiteVisit)
    (db : Db)
    → SamePlans db (check_in_write cmd draw gf v db).1
unfolding check_in_write save_visit add_proof save_response
check_in_write-SamePlans cmd draw gf v db = ground arith

pub check_in-SamePlans :
    (fl : FloatOps) (cmd : CheckInInspectorCommand) (draw : CheckInDraw) (db : Db) (p : Payload)
    → (check_in_fresh fl cmd draw db).0 ≡ ok p
    → SamePlans db (check_in_fresh fl cmd draw db).1
check_in-SamePlans fl cmd draw db p h =
    let a = CheckIn.fresh-Accepted fl cmd draw db p h in
    rw a.whole (check_in_write-SamePlans cmd draw a.status a.visit db)

check_out_write-SamePlans :
    (cmd : CheckOutCommand) (now : Datetime) (v : SiteVisit) (db : Db)
    → SamePlans db (check_out_write cmd now v db).1
unfolding check_out_write save_visit save_response
check_out_write-SamePlans cmd now v db = ground arith

pub check_out-SamePlans :
    (cmd : CheckOutCommand) (now : Datetime) (db : Db) (p : Payload)
    → (check_out_fresh cmd now db).0 ≡ ok p
    → SamePlans db (check_out_fresh cmd now db).1
check_out-SamePlans cmd now db p h =
    let a = CheckOut.fresh-Accepted cmd now db p h in
    rw a.whole (check_out_write-SamePlans cmd now a.closed db)

module _ (w : ConfirmWorld) (cmd : ConfirmHostCommand) (db : Db) where
  mode-SamePlans :
      (mode : HostValidationMode) (m : Mission) (v : SiteVisit)
      → SamePlans db (confirm_mode w cmd mode m v db).1
  unfolding confirm_mode consume
  mode-SamePlans mode m v = ground arith

  write-SamePlans :
      (mode : HostValidationMode) (v : SiteVisit) (b : Db)
      → SamePlans db b
      → SamePlans db (confirm_write w cmd mode v b).1
  unfolding confirm_write mark_copresence_ok save_visit add_proof add_event save_response
  write-SamePlans mode v b s = ground (arith, s)

  pub confirm-SamePlans :
      (p : Payload) → (confirm_fresh w cmd db).0 ≡ ok p → SamePlans db (confirm_fresh w cmd db).1
  confirm-SamePlans p h =
      let a = ConfirmHost.fresh-Accepted w cmd db p h in
      rw a.whole (
        write-SamePlans a.mode a.located (confirm_mode w cmd a.mode a.mission a.visit db).1
          (mode-SamePlans a.mode a.mission a.visit))
