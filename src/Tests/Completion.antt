-- ===== src/Tests/Completion.antt =====
-- A whole visit in the small world.
use sigis_backend.Base.{◌≡◌, refl, none, some, [], ◌∷◌, arith}
use sigis_backend.Base.Table.{first, get, put}
use sigis_backend.Time.{aware, instant, to_utc, elapsed}
use sigis_backend.Errors.{ok}
use sigis_backend.Domain.Visit.{SiteVisitStatus, app_gps, new_visit, ensure_mission_window}
use sigis_backend.Domain.Geo.{haversine_m, geofence_status}
use sigis_backend.Domain.CoPresence.{assert_copresence_mode_a}
use sigis_backend.Store.{Payload, Db, transaction}
use sigis_backend.Store.Missions.{get_establishment, get_mission, save_mission}
use sigis_backend.Store.Visits.{get_visit, get_visit_by_mission}
use sigis_backend.Store.Idempotency.{get_response}
use sigis_backend.UseCases.CheckIn.Accepts.{position_status}
use sigis_backend.UseCases.CheckIn.{check_in, inspector_geofence, default_copresence_params}
use sigis_backend.UseCases.CheckIn.Answers.{begun}
use sigis_backend.UseCases.ConfirmHost.{confirm_host}
use sigis_backend.UseCases.CheckOut.{check_out_visit, presence_duration}
use sigis_backend.UseCases.Missions.{new_mission, create_mission, require_user}
use sigis_backend.Safety.Requests.{serve, serve_all}
use sigis_backend.Safety.Steps.{confirmed_visit, closed_visit}
use sigis_backend.Safety.Completion.{IsVisit, visit_completes}
use sigis_backend.Tests.World.{
  whole, at, school, empty, planning, planned, arrival, arrival_draw, world, confirmation,
  departure,
}

abbrev ready : Db
ready = serve_all (planned ∷ []) empty

small-IsVisit :
    IsVisit whole
      (arrival app_gps)
      arrival_draw
      world
      (confirmation none)
      departure
      ready
      (new_mission planning 20 77)
      school
      4
      11
unfolding new_mission first get put aware instant to_utc elapsed ensure_mission_window
    assert_copresence_mode_a haversine_m geofence_status transaction get_establishment get_mission
    save_mission get_visit get_visit_by_mission get_response position_status inspector_geofence
    default_copresence_params require_user create_mission serve serve_all
small-IsVisit = record {
  admissible = record {
    found = refl;
    not_draft = ground arith;
    assigned = refl;
    place = refl;
    opened = ground arith;
    open_still = ground arith;
    inside = ground arith;
  };
  mode = refl;
  first_one = refl;
  fresh = refl;
  unused_arrive = refl;
  confirm_visit = refl;
  confirm_mission = refl;
  host = refl;
  host_lat = refl;
  host_lon = refl;
  together = refl;
  unused_confirm = refl;
  leave_visit = refl;
  leave_mission = refl;
  leave_user = refl;
  unused_leave = refl;
}

visit_completes_example :
    let first_answer = transaction (check_in whole (arrival app_gps) arrival_draw) ready in
    let second = transaction (confirm_host world (confirmation none)) first_answer.1 in
    let third = transaction (check_out_visit departure (at 60)) second.1 in
    let v = begun (arrival app_gps) arrival_draw (new_visit 30 20) in
    (first_answer.0
      ≡ ok (
          Payload.checked_in 30
            (position_status whole (arrival app_gps) school)
            SiteVisitStatus.pending_host))
    × (second.0 ≡ ok (Payload.confirmed SiteVisitStatus.copresence_ok 30))
    × (third.0
        ≡ ok (
            Payload.checked_out SiteVisitStatus.completed
              (some (to_utc (at 60)))
              (presence_duration (some (to_utc (at 10))) (some (to_utc (at 60))))))
    × (get_visit 30 third.1 ≡ some (closed_visit (confirmed_visit v 4 11) (at 60)))
unfolding new_mission
visit_completes_example =
    visit_completes whole (arrival app_gps) arrival_draw world (confirmation none) departure (at 60)
      ready (new_mission planning 20 77) school 4 11 small-IsVisit
