-- ===== src/Safety/Completion.antt =====
-- A visit can be brought to its end: check-in, confirmation by the two positions, check-out
-- (application/use_cases/check_in_inspector.py, confirm_host_presence.py, check_out_visit.py).
use sigis_backend.Base.{ℕ, ◌≡◌, refl, sym, ap, ◌∙◌, false, none, some, or_else}
use sigis_backend.Base.Float.{Float, FloatOps}
use sigis_backend.Base.Table.{key_of_get}
use sigis_backend.Time.{Datetime, to_utc}
use sigis_backend.Errors.{ok}
use sigis_backend.Domain.Mission.{Mission}
use sigis_backend.Domain.Establishment.{Establishment}
use sigis_backend.Domain.Geo.{haversine_m}
use sigis_backend.Domain.CoPresence.{assert_copresence_mode_a}
use sigis_backend.Domain.Visit.{SiteVisit, SiteVisitStatus, app_gps, new_visit}
use sigis_backend.Store.{Db, Scope, Payload, transaction}
use sigis_backend.Store.Missions.{get_mission}
use sigis_backend.Store.Visits.{get_visit, get_visit_by_mission}
use sigis_backend.Store.Idempotency.{get_response}
use sigis_backend.UseCases.CheckIn.{
  CheckInInspectorCommand, CheckInDraw, check_in, default_copresence_params,
}
use sigis_backend.UseCases.CheckIn.Accepts.{position_status, IsAdmissible}
use sigis_backend.UseCases.CheckIn.Answers.{begun}
use sigis_backend.UseCases.ConfirmHost.{
  ConfirmWorld, ConfirmHostCommand, confirm_host, is_other_host,
}
use sigis_backend.UseCases.CheckOut.{CheckOutCommand, check_out_visit, presence_duration}
use sigis_backend.Safety.Steps.{
  IsConfirmable, confirmed_visit, confirmation_lem, arrival_lem, IsLeavable, closed_visit,
  departure_lem, found_new, found_next, same_missions, same_places, other_scope,
}

-- The three requests of a visit and the state they start from: the check-in is admissible and the
-- first of its mission, the host is the expected one and near enough in time and space, and the
-- keys are unused.
pub record IsVisit (fl : FloatOps) (arrive : CheckInInspectorCommand) (draw : CheckInDraw)
    (w : ConfirmWorld) (confirm : ConfirmHostCommand) (leave : CheckOutCommand) (db : Db)
    (m : Mission) (e : Establishment) (lat lon : Float) : Type 0 where
  pub admissible : IsAdmissible fl arrive draw.now db m e
  pub mode : arrive.host_validation_mode ≡ app_gps
  pub first_one : (get_visit_by_mission m.id db).0 ≡ ok none
  pub fresh : get_visit draw.visit_id db ≡ none
  pub unused_arrive :
      (get_response (Scope.check_in arrive.mission_id) arrive.client_request_id db).0 ≡ ok none
  pub confirm_visit : confirm.site_visit_id ≡ draw.visit_id
  pub confirm_mission : confirm.mission_id ≡ arrive.mission_id
  pub host :
      is_other_host
        (or_else m.designated_host_user_id e.designated_host_user_id)
        confirm.host_user_id
      ≡ false
  pub host_lat : confirm.latitude ≡ some lat
  pub host_lon : confirm.longitude ≡ some lon
  pub together :
      assert_copresence_mode_a w.floats
        (to_utc draw.now)
        w.now
        (haversine_m w.floats arrive.latitude arrive.longitude lat lon)
        (default_copresence_params w.floats)
      ≡ ok tt
  pub unused_confirm :
      (get_response (Scope.confirm_host draw.visit_id) confirm.client_request_id db).0 ≡ ok none
  pub leave_visit : leave.site_visit_id ≡ draw.visit_id
  pub leave_mission : leave.mission_id ≡ arrive.mission_id
  pub leave_user : leave.inspector_user_id ≡ arrive.inspector_user_id
  pub unused_leave :
      (get_response (Scope.check_out draw.visit_id) leave.client_request_id db).0 ≡ ok none

module _ (fl : FloatOps) (arrive : CheckInInspectorCommand) (draw : CheckInDraw) (w : ConfirmWorld)
    (confirm : ConfirmHostCommand) (leave : CheckOutCommand) (now : Datetime) (db : Db)
    (m : Mission) (e : Establishment) (lat lon : Float)
    (h : IsVisit fl arrive draw w confirm leave db m e lat lon) where
  -- The database after the check-in, and after the confirmation.
  arrived : Db
  arrived = (transaction (check_in fl arrive draw) db).1

  confirmed : Db
  unfolding arrived
  confirmed = (transaction (confirm_host w confirm) arrived).1

  abbrev begun_visit : SiteVisit
  begun_visit = begun arrive draw (new_visit draw.visit_id m.id)

  own_mission : m.id ≡ arrive.mission_id
  unfolding get_mission
  own_mission =
      key_of_get (λ (n : Mission). n.id) arrive.mission_id db.missions {v = m} h.admissible.found

  confirmable :
      IsConfirmable w confirm arrived begun_visit m e
        (to_utc draw.now)
        arrive.latitude
        arrive.longitude
        lat
        lon
  unfolding arrived new_visit
  confirmable =
      let (ok_answer, visits, missions, places, answers) =
        arrival_lem fl arrive draw db m e h.admissible h.unused_arrive h.first_one in
      record {
        visit = rw h.confirm_visit (found_new begun_visit db arrived h.fresh visits);
        own = own_mission ∙ sym h.confirm_mission;
        mission =
            rw (h.confirm_mission, same_missions arrive.mission_id db arrived missions)
              h.admissible.found;
        not_draft = h.admissible.not_draft;
        place = rw (same_places m.establishment_id db arrived places) h.admissible.place;
        host = h.host;
        mode = ap some h.mode;
        pending = refl;
        cin_time = refl;
        inspector_lat = refl;
        inspector_lon = refl;
        host_lat = h.host_lat;
        host_lon = h.host_lon;
        together = h.together;
        unused = rw h.confirm_visit (
            other_scope (Scope.check_in arrive.mission_id) (Scope.confirm_host draw.visit_id)
              arrive.client_request_id confirm.client_request_id draw.now _ db arrived refl answers
            ∙ h.unused_confirm);
      }

  abbrev validated_visit : SiteVisit
  validated_visit = confirmed_visit begun_visit lat lon

  leavable : IsLeavable leave confirmed validated_visit m
  unfolding confirmed arrived new_visit
  leavable =
      let (ok_answer, visits, missions, places, answers) =
        arrival_lem fl arrive draw db m e h.admissible h.unused_arrive h.first_one in
      let there = found_new begun_visit db arrived h.fresh visits in
      let (ok_confirm, visits', missions', answers') =
        confirmation_lem w confirm arrived begun_visit m e (to_utc draw.now) arrive.latitude
          arrive.longitude lat lon confirmable in
      record {
        mission =
            rw
              (
                h.leave_mission,
                same_missions arrive.mission_id arrived confirmed missions',
                same_missions arrive.mission_id db arrived missions,
              )
              h.admissible.found;
        assigned = h.admissible.assigned ∙ sym h.leave_user;
        visit =
            rw h.leave_visit
              (found_next validated_visit begun_visit arrived confirmed there refl refl visits');
        own = own_mission ∙ sym h.leave_mission;
        validated = refl;
        still_there = refl;
        unused = rw h.leave_visit (
            other_scope (Scope.confirm_host confirm.site_visit_id) (Scope.check_out draw.visit_id)
              confirm.client_request_id leave.client_request_id w.now _ arrived confirmed refl
              answers'
            ∙ other_scope (Scope.check_in arrive.mission_id) (Scope.check_out draw.visit_id)
                arrive.client_request_id leave.client_request_id draw.now _ db arrived refl answers
            ∙ h.unused_leave);
      }

  -- The check-in, the confirmation and the check-out of an admissible visit all succeed, one
  -- after the other, whatever the clock says at the check-out: the last answer says that the visit
  -- is completed and how long the inspector stayed, and the stored visit is completed, with both
  -- positions and both times.
  pub visit_completes :
      let first_answer = transaction (check_in fl arrive draw) db in
      let second = transaction (confirm_host w confirm) first_answer.1 in
      let third = transaction (check_out_visit leave now) second.1 in
      let v = begun arrive draw (new_visit draw.visit_id m.id) in
      (first_answer.0
        ≡ ok (
            Payload.checked_in draw.visit_id
              (position_status fl arrive e)
              SiteVisitStatus.pending_host))
      × (second.0 ≡ ok (Payload.confirmed SiteVisitStatus.copresence_ok draw.visit_id))
      × (third.0
          ≡ ok (
              Payload.checked_out SiteVisitStatus.completed
                (some (to_utc now))
                (presence_duration (some (to_utc draw.now)) (some (to_utc now)))))
      × (get_visit draw.visit_id third.1 ≡ some (closed_visit (confirmed_visit v lat lon) now))
  unfolding confirmed arrived new_visit
  visit_completes =
      let (left, visits) = departure_lem leave now confirmed validated_visit m leavable in
      let there : get_visit draw.visit_id confirmed ≡ some validated_visit =
        ap (λ (i : ℕ). get_visit i confirmed) (sym h.leave_visit) ∙ leavable.visit in
      (
        (arrival_lem fl arrive draw db m e h.admissible h.unused_arrive h.first_one).0,
        (confirmation_lem w confirm arrived begun_visit m e (to_utc draw.now) arrive.latitude
            arrive.longitude lat lon confirmable).0,
        left,
        found_next (closed_visit validated_visit now) validated_visit confirmed
            (transaction (check_out_visit leave now) confirmed).1 there refl refl visits,
      )
