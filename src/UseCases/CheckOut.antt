-- ===== src/UseCases/CheckOut.antt =====
-- application/use_cases/check_out_visit.py.
use sigis_backend.Base.{ℕ, Option, none, some, Text, ◌==◌, not}
use sigis_backend.Base.Int.{ℤ}
use sigis_backend.Time.{Datetime, aware, elapsed}
use sigis_backend.Errors.{ErrorClass, raised_as}
use sigis_backend.Domain.Visit.{SiteVisit, check_out}
use sigis_backend.Store.{Exec, Scope, Payload, pure, lift, gets, or_raise, raise_if, ◌>>=◌, ◌>>◌}
use sigis_backend.Store.Missions.{get_mission}
use sigis_backend.Store.Visits.{get_visit, save_visit}
use sigis_backend.Store.Idempotency.{get_response, save_response}
use sigis_backend.UseCases.CheckIn.{replay_or}

pub record CheckOutCommand : Type 0 where
  pub site_visit_id : ℕ
  pub mission_id : ℕ
  pub inspector_user_id : ℕ
  pub client_request_id : Text

-- The time on site, as a `timedelta` (the source converts it to seconds).
unfoldable pub presence_duration : Option Datetime → Option Datetime → Option ℤ
unfolding elapsed aware
presence_duration (some cin) (some cout) = some (elapsed (aware cout) (aware cin))
presence_duration (some cin) none = none
presence_duration none cout = none

unfoldable pub check_out_guards : CheckOutCommand → Exec SiteVisit
check_out_guards cmd = do
  planned ← gets (get_mission cmd.mission_id)
  mission ← or_raise planned (raised_as ErrorClass.not_found)
  raise_if (not (mission.inspector_id == cmd.inspector_user_id)) (raised_as ErrorClass.forbidden)
  found ← gets (get_visit cmd.site_visit_id)
  visit ← or_raise found (raised_as ErrorClass.not_found)
  raise_if (not (visit.mission_id == cmd.mission_id)) (raised_as ErrorClass.conflict)
  pure visit

-- The rows that are written, and the answer.
unfoldable pub check_out_write : CheckOutCommand → Datetime → SiteVisit → Exec Payload
unfolding presence_duration
check_out_write cmd now visit = do
  save_visit visit
  let payload =
      Payload.checked_out visit.status visit.checked_out_at
        (presence_duration visit.checked_in_at visit.checked_out_at)
  save_response (Scope.check_out cmd.site_visit_id) cmd.client_request_id now payload
  pure payload

unfoldable pub check_out_fresh : CheckOutCommand → Datetime → Exec Payload
check_out_fresh cmd now = do
  visit ← check_out_guards cmd
  closed ← lift (check_out visit now)
  check_out_write cmd now closed

-- `CheckOutVisit.execute`
unfoldable pub check_out_visit : CheckOutCommand → Datetime → Exec Payload
check_out_visit cmd now = do
  cached ← get_response (Scope.check_out cmd.site_visit_id) cmd.client_request_id
  replay_or cached (check_out_fresh cmd now)
