-- ===== src/Tests/Visits.antt =====
-- Runs of the visit operations and the theorems about them, at one visit.
use sigis_backend.Base.{◌≡◌, refl, Option, none, some, List, codes, [], ◌∷◌, true, false}
use sigis_backend.Base.Table.{first, get, put}
use sigis_backend.Base.Uuid.{hex_digit, hex_digits, uuid_text}
use sigis_backend.Time.{aware, instant, to_utc, elapsed}
use sigis_backend.Errors.{ok, err, class_code}
use sigis_backend.Domain.Visit.{
  SiteVisit, SiteVisitStatus, app_gps, qr_static, new_visit, ensure_mission_window, start_check_in,
  mark_copresence_ok, check_out,
}
use sigis_backend.Domain.Presence.{GeofenceStatus}
use sigis_backend.Domain.CoPresence.{assert_copresence_mode_a}
use sigis_backend.Domain.Geo.{haversine_m, geofence_status}
use sigis_backend.Store.{Db, Payload, transaction}
use sigis_backend.Store.Missions.{get_establishment, get_mission, save_mission}
use sigis_backend.Store.Visits.{get_visit, get_visit_by_mission, save_visit}
use sigis_backend.Store.Idempotency.{get_response, save_response}
use sigis_backend.Store.Evidence.{add_proof, add_event, is_consumed, consume}
use sigis_backend.Store.Reports.{get_outcome_by_mission, save_outcome}
use sigis_backend.UseCases.CheckIn.{
  CheckInInspectorCommand, inspector_geofence, check_in_guards, check_in_visit, check_in_write,
  check_in_fresh, check_in, default_copresence_params,
}
use sigis_backend.UseCases.HostQr.{verify_host_qr_jwt}
use sigis_backend.UseCases.ConfirmHost.{
  confirm_jwt, confirm_mode, confirm_guards, confirm_write, confirm_fresh, confirm_host,
}
use sigis_backend.UseCases.CheckOut.{
  presence_duration, check_out_guards, check_out_write, check_out_fresh, check_out_visit,
}
use sigis_backend.UseCases.Missions.{
  require_user, new_mission, create_mission, approve_mission, cancel_mission, submit_outcome,
  new_outcome, reassign_inspector,
}
use sigis_backend.Safety.Requests.{Request, serve, serve_all, start}
use sigis_backend.Tests.World.{
  staff, whole, at, school, empty, planning, planned, arrival, arrival_draw, world, confirmation,
  departure, arrived, visited, completed, report,
}
use sigis_backend.Base.{◌*◌}
use sigis_backend.Base.Int.{pos}
use sigis_backend.UseCases.CheckIn.Accepts.{IsAdmissible, position_status}
use sigis_backend.UseCases.CheckIn.Answers.{begun, proof_of, check_in_answers, check_in_twice}
use sigis_backend.Base.{◌++◌, ◌≢◌, arith}
use sigis_backend.Errors.{raised, raised_as, ErrorClass, Code, Failure}
use sigis_backend.Domain.Visit.Lifecycle.{
  VisitEvent, IsCoherent, run, new_visit-IsCoherent, run-IsCoherent,
}
use sigis_backend.Domain.Visit.Order.{Completion, run-Completion, check_out_once}
use sigis_backend.Safety.Invariant.{IsSound, has_proof, has_event}
use sigis_backend.Safety.Requests.{
  serve_all-IsSound, start-IsSound, completed_evidence, one_visit_per_mission,
}
use sigis_backend.Safety.Replay.{check_in_replay, confirm_host_replay, check_out_replay}
use sigis_backend.Safety.Tokens.{token_once}
use sigis_backend.Safety.Needs.{
  Admitted, HostAdmitted, Departure, check_in_needs, confirm_host_needs, check_out_needs,
}
use sigis_backend.Safety.Outcomes.{OneEach, one_outcome_each}
use sigis_backend.Safety.Moves.{Goes}
use sigis_backend.Safety.Moves.Served.{mission_life}

abbrev status_of : Option SiteVisit → Option SiteVisitStatus
status_of none = none
status_of (some v) = some v.status

run_completes :
    status_of (get_visit 30 (serve_all completed empty)) ≡ some SiteVisitStatus.completed
unfolding first get put hex_digit hex_digits uuid_text aware instant to_utc elapsed class_code
    new_visit ensure_mission_window start_check_in mark_copresence_ok check_out
    assert_copresence_mode_a haversine_m geofence_status transaction get_establishment get_mission
    save_mission get_visit get_visit_by_mission save_visit get_response save_response add_proof
    add_event is_consumed consume get_outcome_by_mission save_outcome inspector_geofence
    position_status check_in_guards check_in_visit check_in_write check_in_fresh check_in
    default_copresence_params verify_host_qr_jwt confirm_mode confirm_guards confirm_write
    confirm_fresh confirm_host presence_duration check_out_guards check_out_write check_out_fresh
    check_out_visit require_user create_mission approve_mission cancel_mission submit_outcome
    new_outcome reassign_inspector serve serve_all
run_completes = refl

abbrev AdmissibleAt : CheckInInspectorCommand → Db → Type 0
AdmissibleAt cmd db = IsAdmissible whole cmd (at 10) db (new_mission planning 20 77) school

admissible : AdmissibleAt (arrival app_gps) (serve_all (planned ∷ []) empty)
unfolding new_mission first get put hex_digit hex_digits uuid_text aware instant to_utc elapsed
    class_code new_visit ensure_mission_window start_check_in mark_copresence_ok check_out
    assert_copresence_mode_a haversine_m geofence_status transaction get_establishment get_mission
    save_mission get_visit get_visit_by_mission save_visit get_response save_response add_proof
    add_event is_consumed consume get_outcome_by_mission save_outcome inspector_geofence
    position_status check_in_guards check_in_visit check_in_write check_in_fresh check_in
    default_copresence_params verify_host_qr_jwt confirm_mode confirm_guards confirm_write
    confirm_fresh confirm_host presence_duration check_out_guards check_out_write check_out_fresh
    check_out_visit require_user create_mission approve_mission cancel_mission submit_outcome
    new_outcome reassign_inspector serve serve_all
admissible = record {
  found = refl;
  not_draft = ground arith;
  assigned = refl;
  place = refl;
  opened = ground arith;
  open_still = ground arith;
  inside = ground arith;
}

admissible_again :
    AdmissibleAt
      (record (arrival app_gps) { client_request_id = codes "k9" })
      (serve_all (arrived app_gps) empty)
unfolding new_mission first get put hex_digit hex_digits uuid_text aware instant to_utc elapsed
    class_code new_visit ensure_mission_window start_check_in mark_copresence_ok check_out
    assert_copresence_mode_a haversine_m geofence_status transaction get_establishment get_mission
    save_mission get_visit get_visit_by_mission save_visit get_response save_response add_proof
    add_event is_consumed consume get_outcome_by_mission save_outcome inspector_geofence
    position_status check_in_guards check_in_visit check_in_write check_in_fresh check_in
    default_copresence_params verify_host_qr_jwt confirm_mode confirm_guards confirm_write
    confirm_fresh confirm_host presence_duration check_out_guards check_out_write check_out_fresh
    check_out_visit require_user create_mission approve_mission cancel_mission submit_outcome
    new_outcome reassign_inspector serve serve_all
admissible_again = record {
  found = refl;
  not_draft = ground arith;
  assigned = refl;
  place = refl;
  opened = ground arith;
  open_still = ground arith;
  inside = ground arith;
}

serve_all-IsSound_example : IsSound (serve_all completed empty)
unfolding new_mission first get put hex_digit hex_digits uuid_text aware instant to_utc elapsed
    class_code new_visit ensure_mission_window start_check_in mark_copresence_ok check_out
    assert_copresence_mode_a haversine_m geofence_status transaction get_establishment get_mission
    save_mission get_visit get_visit_by_mission save_visit get_response save_response add_proof
    add_event is_consumed consume get_outcome_by_mission save_outcome inspector_geofence
    position_status check_in_guards check_in_visit check_in_write check_in_fresh check_in
    default_copresence_params verify_host_qr_jwt confirm_mode confirm_guards confirm_write
    confirm_fresh confirm_host presence_duration check_out_guards check_out_write check_out_fresh
    check_out_visit require_user create_mission approve_mission cancel_mission submit_outcome
    new_outcome reassign_inspector serve serve_all
serve_all-IsSound_example = serve_all-IsSound completed empty (start-IsSound (school ∷ []) staff)

check_in_replay_example :
    let after =
      serve_all
        (Request.cancel 20 (codes "late") 3 (at 100) ∷ [])
        (transaction
          (check_in whole (arrival app_gps) arrival_draw)
          (serve_all (planned ∷ []) empty)).1 in
    transaction (check_in whole (arrival qr_static) (record arrival_draw { now = at 30 })) after
    ≡ (ok (Payload.checked_in 30 GeofenceStatus.ok SiteVisitStatus.pending_host), after)
unfolding new_mission first get put hex_digit hex_digits uuid_text aware instant to_utc elapsed
    class_code new_visit ensure_mission_window start_check_in mark_copresence_ok check_out
    assert_copresence_mode_a haversine_m geofence_status transaction get_establishment get_mission
    save_mission get_visit get_visit_by_mission save_visit get_response save_response add_proof
    add_event is_consumed consume get_outcome_by_mission save_outcome inspector_geofence
    position_status check_in_guards check_in_visit check_in_write check_in_fresh check_in
    default_copresence_params verify_host_qr_jwt confirm_mode confirm_guards confirm_write
    confirm_fresh confirm_host presence_duration check_out_guards check_out_write check_out_fresh
    check_out_visit require_user create_mission approve_mission cancel_mission submit_outcome
    new_outcome reassign_inspector serve serve_all
check_in_replay_example =
    check_in_replay whole whole (arrival app_gps) (arrival qr_static) arrival_draw
      (record arrival_draw { now = at 30 }) (serve_all (planned ∷ []) empty)
      (Request.cancel 20 (codes "late") 3 (at 100) ∷ [])
      (Payload.checked_in 30 GeofenceStatus.ok SiteVisitStatus.pending_host) refl refl refl

confirm_host_replay_example :
    let after =
      serve_all
        (Request.cancel 20 (codes "late") 3 (at 100) ∷ [])
        (transaction
          (confirm_host world (confirmation none))
          (serve_all (arrived app_gps) empty)).1 in
    transaction (confirm_host (record world { now = at 300 }) (confirmation none)) after
    ≡ (ok (Payload.confirmed SiteVisitStatus.copresence_ok 30), after)
unfolding new_mission first get put hex_digit hex_digits uuid_text aware instant to_utc elapsed
    class_code new_visit ensure_mission_window start_check_in mark_copresence_ok check_out
    assert_copresence_mode_a haversine_m geofence_status transaction get_establishment get_mission
    save_mission get_visit get_visit_by_mission save_visit get_response save_response add_proof
    add_event is_consumed consume get_outcome_by_mission save_outcome inspector_geofence
    position_status check_in_guards check_in_visit check_in_write check_in_fresh check_in
    default_copresence_params verify_host_qr_jwt confirm_mode confirm_guards confirm_write
    confirm_fresh confirm_host presence_duration check_out_guards check_out_write check_out_fresh
    check_out_visit require_user create_mission approve_mission cancel_mission submit_outcome
    new_outcome reassign_inspector serve serve_all
confirm_host_replay_example =
    confirm_host_replay world (record world { now = at 300 }) (confirmation none)
      (confirmation none) (serve_all (arrived app_gps) empty)
      (Request.cancel 20 (codes "late") 3 (at 100) ∷ [])
      (Payload.confirmed SiteVisitStatus.copresence_ok 30) refl refl refl

check_out_replay_example :
    let after =
      serve_all
        (Request.cancel 20 (codes "late") 3 (at 100) ∷ [])
        (transaction (check_out_visit departure (at 60)) (serve_all visited empty)).1 in
    transaction (check_out_visit departure (at 90)) after ≡ (
      ok (
          Payload.checked_out SiteVisitStatus.completed
            (some (at 60))
            (some (pos (50 * 60000000)))),
      after,
    )
unfolding new_mission first get put hex_digit hex_digits uuid_text aware instant to_utc elapsed
    class_code new_visit ensure_mission_window start_check_in mark_copresence_ok check_out
    assert_copresence_mode_a haversine_m geofence_status transaction get_establishment get_mission
    save_mission get_visit get_visit_by_mission save_visit get_response save_response add_proof
    add_event is_consumed consume get_outcome_by_mission save_outcome inspector_geofence
    position_status check_in_guards check_in_visit check_in_write check_in_fresh check_in
    default_copresence_params verify_host_qr_jwt confirm_mode confirm_guards confirm_write
    confirm_fresh confirm_host presence_duration check_out_guards check_out_write check_out_fresh
    check_out_visit require_user create_mission approve_mission cancel_mission submit_outcome
    new_outcome reassign_inspector serve serve_all
check_out_replay_example =
    check_out_replay departure departure (at 60) (at 90) (serve_all visited empty)
      (Request.cancel 20 (codes "late") 3 (at 100) ∷ [])
      (Payload.checked_out SiteVisitStatus.completed (some (at 60)) (some (pos (50 * 60000000))))
      refl refl refl

check_in_needs_example :
    Admitted whole
      (arrival app_gps)
      (at 10)
      (serve_all (planned ∷ []) empty)
      (Payload.checked_in 30 GeofenceStatus.ok SiteVisitStatus.pending_host)
unfolding new_mission first get put hex_digit hex_digits uuid_text aware instant to_utc elapsed
    class_code new_visit ensure_mission_window start_check_in mark_copresence_ok check_out
    assert_copresence_mode_a haversine_m geofence_status transaction get_establishment get_mission
    save_mission get_visit get_visit_by_mission save_visit get_response save_response add_proof
    add_event is_consumed consume get_outcome_by_mission save_outcome inspector_geofence
    position_status check_in_guards check_in_visit check_in_write check_in_fresh check_in
    default_copresence_params verify_host_qr_jwt confirm_mode confirm_guards confirm_write
    confirm_fresh confirm_host presence_duration check_out_guards check_out_write check_out_fresh
    check_out_visit require_user create_mission approve_mission cancel_mission submit_outcome
    new_outcome reassign_inspector serve serve_all
check_in_needs_example =
    check_in_needs whole (arrival app_gps) arrival_draw (serve_all (planned ∷ []) empty)
      (Payload.checked_in 30 GeofenceStatus.ok SiteVisitStatus.pending_host) refl

confirm_host_needs_example :
    HostAdmitted world (confirmation none) (serve_all (arrived app_gps) empty)
unfolding new_mission first get put hex_digit hex_digits uuid_text aware instant to_utc elapsed
    class_code new_visit ensure_mission_window start_check_in mark_copresence_ok check_out
    assert_copresence_mode_a haversine_m geofence_status transaction get_establishment get_mission
    save_mission get_visit get_visit_by_mission save_visit get_response save_response add_proof
    add_event is_consumed consume get_outcome_by_mission save_outcome inspector_geofence
    position_status check_in_guards check_in_visit check_in_write check_in_fresh check_in
    default_copresence_params verify_host_qr_jwt confirm_mode confirm_guards confirm_write
    confirm_fresh confirm_host presence_duration check_out_guards check_out_write check_out_fresh
    check_out_visit require_user create_mission approve_mission cancel_mission submit_outcome
    new_outcome reassign_inspector serve serve_all
confirm_host_needs_example =
    confirm_host_needs world (confirmation none) (serve_all (arrived app_gps) empty)
      (Payload.confirmed SiteVisitStatus.copresence_ok 30) refl

check_out_needs_example :
    Departure departure
      (at 60)
      (serve_all visited empty)
      (Payload.checked_out SiteVisitStatus.completed (some (at 60)) (some (pos (50 * 60000000))))
unfolding new_mission first get put hex_digit hex_digits uuid_text aware instant to_utc elapsed
    class_code new_visit ensure_mission_window start_check_in mark_copresence_ok check_out
    assert_copresence_mode_a haversine_m geofence_status transaction get_establishment get_mission
    save_mission get_visit get_visit_by_mission save_visit get_response save_response add_proof
    add_event is_consumed consume get_outcome_by_mission save_outcome inspector_geofence
    position_status check_in_guards check_in_visit check_in_write check_in_fresh check_in
    default_copresence_params verify_host_qr_jwt confirm_mode confirm_guards confirm_write
    confirm_fresh confirm_host presence_duration check_out_guards check_out_write check_out_fresh
    check_out_visit require_user create_mission approve_mission cancel_mission submit_outcome
    new_outcome reassign_inspector serve serve_all
check_out_needs_example =
    check_out_needs departure (at 60) (serve_all visited empty)
      (Payload.checked_out SiteVisitStatus.completed (some (at 60)) (some (pos (50 * 60000000))))
      refl

check_in_answers_example :
    let v = begun (arrival app_gps) arrival_draw (new_visit 30 20) in
    let after =
      transaction
        (check_in whole (arrival app_gps) arrival_draw)
        (serve_all (planned ∷ []) empty) in
    (after.0
      ≡ ok (
          Payload.checked_in v.id
            (position_status whole (arrival app_gps) school)
            SiteVisitStatus.pending_host))
    × (get_visit 30 after.1 ≡ some v)
    × (after.1.presence_proofs
        ≡ (serve_all (planned ∷ []) empty).presence_proofs
          ++ proof_of whole (arrival app_gps) arrival_draw school v.id ∷ [])
unfolding new_mission first get put hex_digit hex_digits uuid_text aware instant to_utc elapsed
    class_code new_visit ensure_mission_window start_check_in mark_copresence_ok check_out
    assert_copresence_mode_a haversine_m geofence_status transaction get_establishment get_mission
    save_mission get_visit get_visit_by_mission save_visit get_response save_response add_proof
    add_event is_consumed consume get_outcome_by_mission save_outcome inspector_geofence
    position_status check_in_guards check_in_visit check_in_write check_in_fresh check_in
    default_copresence_params verify_host_qr_jwt confirm_mode confirm_guards confirm_write
    confirm_fresh confirm_host presence_duration check_out_guards check_out_write check_out_fresh
    check_out_visit require_user create_mission approve_mission cancel_mission submit_outcome
    new_outcome reassign_inspector serve serve_all
check_in_answers_example =
    check_in_answers whole (arrival app_gps) arrival_draw (serve_all (planned ∷ []) empty)
      (new_mission planning 20 77) school 30 admissible refl none refl refl refl

check_in_twice_example :
    transaction
      (check_in whole (record (arrival app_gps) { client_request_id = codes "k9" }) arrival_draw)
      (serve_all (arrived app_gps) empty)
    ≡ (err (raised_as ErrorClass.conflict), (serve_all (arrived app_gps) empty))
unfolding new_mission first get put hex_digit hex_digits uuid_text aware instant to_utc elapsed
    class_code new_visit ensure_mission_window start_check_in mark_copresence_ok check_out
    assert_copresence_mode_a haversine_m geofence_status transaction get_establishment get_mission
    save_mission get_visit get_visit_by_mission save_visit get_response save_response add_proof
    add_event is_consumed consume get_outcome_by_mission save_outcome inspector_geofence
    position_status check_in_guards check_in_visit check_in_write check_in_fresh check_in
    default_copresence_params verify_host_qr_jwt confirm_mode confirm_guards confirm_write
    confirm_fresh confirm_host presence_duration check_out_guards check_out_write check_out_fresh
    check_out_visit require_user create_mission approve_mission cancel_mission submit_outcome
    new_outcome reassign_inspector serve serve_all
check_in_twice_example =
    check_in_twice whole (record (arrival app_gps) { client_request_id = codes "k9" }) arrival_draw
      (serve_all (arrived app_gps) empty) (new_mission planning 20 77) school admissible_again refl
      (begun (arrival app_gps) arrival_draw (new_visit 30 20)) refl (ground arith)

token_once_example :
    (is_consumed (codes "abcdefgh") (serve_all (arrived qr_static) empty) ≡ false)
    × ((confirm_jwt world
          (codes "signed")
          (new_mission planning 20 77)
          (begun (arrival qr_static) arrival_draw (new_visit 30 20))
          (serve_all
            (Request.cancel 20 (codes "late") 3 (at 100) ∷ [])
            (confirm_fresh world
              (confirmation (some (codes "signed")))
              (serve_all (arrived qr_static) empty)).1)).0
        ≡ err (raised ErrorClass.copresence_rejected Code.invalid_qr_token))
unfolding new_mission first get put hex_digit hex_digits uuid_text aware instant to_utc elapsed
    class_code new_visit ensure_mission_window start_check_in mark_copresence_ok check_out
    assert_copresence_mode_a haversine_m geofence_status transaction get_establishment get_mission
    save_mission get_visit get_visit_by_mission save_visit get_response save_response add_proof
    add_event is_consumed consume get_outcome_by_mission save_outcome inspector_geofence
    position_status check_in_guards check_in_visit check_in_write check_in_fresh check_in
    default_copresence_params verify_host_qr_jwt confirm_mode confirm_guards confirm_write
    confirm_fresh confirm_host presence_duration check_out_guards check_out_write check_out_fresh
    check_out_visit require_user create_mission approve_mission cancel_mission submit_outcome
    new_outcome reassign_inspector serve serve_all
token_once_example =
    token_once world world (confirmation (some (codes "signed")))
      (serve_all (arrived qr_static) empty) (Payload.confirmed SiteVisitStatus.copresence_ok 30)
      (begun (arrival qr_static) arrival_draw (new_visit 30 20))
      (begun (arrival qr_static) arrival_draw (new_visit 30 20)) (new_mission planning 20 77)
      (new_mission planning 20 77) (codes "signed") (codes "signed") (codes "abcdefgh")
      (Request.cancel 20 (codes "late") 3 (at 100) ∷ []) refl refl refl refl refl refl refl

mission_life_example :
    Goes 20 (new_mission planning 20 77) (
      serve_all (Request.cancel 20 (codes "late") 3 (at 100) ∷ []) (serve_all (planned ∷ []) empty))
unfolding new_mission first get put hex_digit hex_digits uuid_text aware instant to_utc elapsed
    class_code new_visit ensure_mission_window start_check_in mark_copresence_ok check_out
    assert_copresence_mode_a haversine_m geofence_status transaction get_establishment get_mission
    save_mission get_visit get_visit_by_mission save_visit get_response save_response add_proof
    add_event is_consumed consume get_outcome_by_mission save_outcome inspector_geofence
    position_status check_in_guards check_in_visit check_in_write check_in_fresh check_in
    default_copresence_params verify_host_qr_jwt confirm_mode confirm_guards confirm_write
    confirm_fresh confirm_host presence_duration check_out_guards check_out_write check_out_fresh
    check_out_visit require_user create_mission approve_mission cancel_mission submit_outcome
    new_outcome reassign_inspector serve serve_all
mission_life_example =
    mission_life (Request.cancel 20 (codes "late") 3 (at 100) ∷ []) 20 (new_mission planning 20 77)
      (serve_all (planned ∷ []) empty) refl (tt, tt)

one_outcome_each_example :
    let db =
      serve_all (planned ∷ Request.report report 60 (at 100) ∷ []) (start (school ∷ []) staff) in
    OneEach db
    × (transaction (submit_outcome report 61 (at 110)) db
        ≡ (err (raised_as ErrorClass.conflict), db))
unfolding new_mission first get put hex_digit hex_digits uuid_text aware instant to_utc elapsed
    class_code new_visit ensure_mission_window start_check_in mark_copresence_ok check_out
    assert_copresence_mode_a haversine_m geofence_status transaction get_establishment get_mission
    save_mission get_visit get_visit_by_mission save_visit get_response save_response add_proof
    add_event is_consumed consume get_outcome_by_mission save_outcome inspector_geofence
    position_status check_in_guards check_in_visit check_in_write check_in_fresh check_in
    default_copresence_params verify_host_qr_jwt confirm_mode confirm_guards confirm_write
    confirm_fresh confirm_host presence_duration check_out_guards check_out_write check_out_fresh
    check_out_visit require_user create_mission approve_mission cancel_mission submit_outcome
    new_outcome reassign_inspector serve serve_all
one_outcome_each_example =
    one_outcome_each (school ∷ []) staff (planned ∷ Request.report report 60 (at 100) ∷ []) report
      61 (at 110) (new_mission planning 20 77) (new_outcome report 60 (at 100)) refl refl

completed_evidence_example :
    let db = serve_all completed (start (school ∷ []) staff) in
    (has_proof 30 db.presence_proofs ≡ true)
    × (has_event 30 db.copresence_events ≡ true)
    × (some (at 10) ≢ none)
    × (some (at 60) ≢ none)
unfolding new_mission first get put hex_digit hex_digits uuid_text aware instant to_utc elapsed
    class_code new_visit ensure_mission_window start_check_in mark_copresence_ok check_out
    assert_copresence_mode_a haversine_m geofence_status transaction get_establishment get_mission
    save_mission get_visit get_visit_by_mission save_visit get_response save_response add_proof
    add_event is_consumed consume get_outcome_by_mission save_outcome inspector_geofence
    position_status check_in_guards check_in_visit check_in_write check_in_fresh check_in
    default_copresence_params verify_host_qr_jwt confirm_mode confirm_guards confirm_write
    confirm_fresh confirm_host presence_duration check_out_guards check_out_write check_out_fresh
    check_out_visit require_user create_mission approve_mission cancel_mission submit_outcome
    new_outcome reassign_inspector serve serve_all
completed_evidence_example =
    completed_evidence (school ∷ []) staff completed 30
      (record (begun (arrival app_gps) arrival_draw (new_visit 30 20)) {
        host_lat = some 4;
        host_lon = some 11;
        checked_out_at = some (at 60);
        status = SiteVisitStatus.completed;
      })
      refl refl

one_visit_per_mission_example :
    (get_visit_by_mission 20 (serve_all completed (start (school ∷ []) staff))).0
    ≢ err Failure.multiple_results_found
unfolding new_mission first get put hex_digit hex_digits uuid_text aware instant to_utc elapsed
    class_code new_visit ensure_mission_window start_check_in mark_copresence_ok check_out
    assert_copresence_mode_a haversine_m geofence_status transaction get_establishment get_mission
    save_mission get_visit get_visit_by_mission save_visit get_response save_response add_proof
    add_event is_consumed consume get_outcome_by_mission save_outcome inspector_geofence
    position_status check_in_guards check_in_visit check_in_write check_in_fresh check_in
    default_copresence_params verify_host_qr_jwt confirm_mode confirm_guards confirm_write
    confirm_fresh confirm_host presence_duration check_out_guards check_out_write check_out_fresh
    check_out_visit require_user create_mission approve_mission cancel_mission submit_outcome
    new_outcome reassign_inspector serve serve_all
one_visit_per_mission_example = one_visit_per_mission (school ∷ []) staff completed 20

run-IsCoherent_example : IsCoherent (
    run (new_visit 30 20) (
      VisitEvent.check_in (at 10) app_gps
      ∷ VisitEvent.leave (at 11)
      ∷ VisitEvent.copresence
      ∷ VisitEvent.leave (at 60)
      ∷ []))
unfolding new_visit run
run-IsCoherent_example =
    run-IsCoherent (new_visit 30 20)
      (VisitEvent.check_in (at 10) app_gps
        ∷ VisitEvent.leave (at 11)
        ∷ VisitEvent.copresence
        ∷ VisitEvent.leave (at 60)
        ∷ [])
      (new_visit-IsCoherent 30 20)

run-Completion_example :
    Completion
      (VisitEvent.check_in (at 10) app_gps
        ∷ VisitEvent.leave (at 11)
        ∷ VisitEvent.copresence
        ∷ VisitEvent.leave (at 60)
        ∷ [])
      (run (new_visit 30 20) (
        VisitEvent.check_in (at 10) app_gps
        ∷ VisitEvent.leave (at 11)
        ∷ VisitEvent.copresence
        ∷ VisitEvent.leave (at 60)
        ∷ []))
unfolding new_visit run to_utc
run-Completion_example =
    run-Completion (new_visit 30 20)
      (VisitEvent.check_in (at 10) app_gps
        ∷ VisitEvent.leave (at 11)
        ∷ VisitEvent.copresence
        ∷ VisitEvent.leave (at 60)
        ∷ [])
      refl refl

abbrev ready : List VisitEvent
ready = VisitEvent.check_in (at 10) app_gps ∷ VisitEvent.leave (at 11) ∷ VisitEvent.copresence ∷ []

abbrev left : SiteVisit
left = record (new_visit 30 20) {
  host_validation_mode = some app_gps;
  checked_in_at = some (at 10);
  checked_out_at = some (at 60);
  status = SiteVisitStatus.completed;
}

check_out_once_example :
    (left ≡ record (run (new_visit 30 20) ready) {
      checked_out_at = some (at 60);
      status = SiteVisitStatus.completed;
    })
    × (run left (VisitEvent.leave (at 70) ∷ []) ≡ left)
    × (check_out (run left (VisitEvent.leave (at 70) ∷ [])) (at 80)
        ≡ err (raised_as ErrorClass.invariant_violation))
    × (check_out (run (new_visit 30 20) (VisitEvent.leave (at 70) ∷ [])) (at 80)
        ≢ err (raised_as ErrorClass.already_checked_out))
unfolding new_visit run to_utc check_out class_code
check_out_once_example =
    check_out_once (new_visit 30 20) left ready (VisitEvent.leave (at 70) ∷ []) (at 60) (at 80)
      (new_visit-IsCoherent 30 20) refl
