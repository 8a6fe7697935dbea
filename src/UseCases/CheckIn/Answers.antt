-- ===== src/UseCases/CheckIn/Answers.antt =====
-- What a check-in answers and writes (application/use_cases/check_in_inspector.py), and what a
-- stored visit under way makes of it.
use sigis_backend.Base.{
  ℕ, ◌==◌, if◌then◌else◌, ◌≡◌, ◌≢◌, refl, Option, none, some, [], ◌∷◌, ◌++◌, false, arith,
}
use sigis_backend.Base.Float.{FloatOps}
use sigis_backend.Errors.{ok, err, raised_as, ErrorClass}
use sigis_backend.Time.{to_utc}
use sigis_backend.Domain.Mission.{Mission}
use sigis_backend.Domain.Visit.{SiteVisit, SiteVisitStatus, new_visit, start_check_in}
use sigis_backend.Domain.Presence.{PresenceProof}
use sigis_backend.Domain.Establishment.{Establishment}
use sigis_backend.Store.{Db, Scope, Payload, transaction}
use sigis_backend.Store.Visits.{get_visit, get_visit_by_mission, row_to_write, save_visit}
use sigis_backend.Store.Visits.Saved.{get_visit-save_visit}
use sigis_backend.Store.Idempotency.{get_response, save_response}
use sigis_backend.Store.Evidence.{add_proof}
use sigis_backend.UseCases.CheckIn.{
  CheckInInspectorCommand, CheckInDraw, check_in_visit, check_in_write, check_in_fresh, check_in,
  is_underway, visit_or_new,
}
use sigis_backend.UseCases.CheckIn.Accepts.{IsAdmissible, guards_pass, position_status}

abbrev pub proof_of :
    FloatOps → CheckInInspectorCommand → CheckInDraw → Establishment → ℕ → PresenceProof
proof_of fl cmd draw e vid = record {
  id = draw.proof_id;
  site_visit_id = vid;
  actor_user_id = cmd.inspector_user_id;
  recorded_at = draw.now;
  latitude = cmd.latitude;
  longitude = cmd.longitude;
  geofence_status = position_status fl cmd e;
}

-- The visit that the check-in saves.
abbrev pub begun : CheckInInspectorCommand → CheckInDraw → SiteVisit → SiteVisit
begun cmd draw v = record v {
  host_validation_mode = some cmd.host_validation_mode;
  checked_in_at = some (to_utc draw.now);
  status = SiteVisitStatus.pending_host;
  inspector_lat = some cmd.latitude;
  inspector_lon = some cmd.longitude;
}

module _ (fl : FloatOps) (cmd : CheckInInspectorCommand) (draw : CheckInDraw) (db : Db)
    (m : Mission) (e : Establishment) where
  visit_lem :
      (found : Option SiteVisit)
      → (get_visit_by_mission m.id db).0 ≡ ok found
      → is_underway found ≡ false
      → check_in_visit cmd draw m db
        ≡ (ok (begun cmd draw (visit_or_new found draw.visit_id m.id)), db)
  unfolding check_in_visit get_visit_by_mission start_check_in new_visit
  visit_lem none h u = ground (arith, h)
  visit_lem (some v) h u = ground (arith, h)

  no_visit :
      (v : SiteVisit)
      → (get_visit_by_mission m.id db).0 ≡ ok (some v)
      → v.status ≢ SiteVisitStatus.scheduled
      → check_in_visit cmd draw m db ≡ (err (raised_as ErrorClass.conflict), db)
  unfolding check_in_visit get_visit_by_mission
  no_visit v h u = ground (arith, h)

  pub fresh_lem :
      IsAdmissible fl cmd draw.now db m e
      → (found : Option SiteVisit) → (get_visit_by_mission m.id db).0 ≡ ok found
      → is_underway found ≡ false
      → check_in_fresh fl cmd draw db
        ≡ check_in_write cmd draw
            (position_status fl cmd e)
            (begun cmd draw (visit_or_new found draw.visit_id m.id))
            db
  unfolding check_in_fresh
  fresh_lem a found h u = rw (guards_pass fl cmd draw.now db m e a, visit_lem found h u)

  fresh_refused :
      IsAdmissible fl cmd draw.now db m e
      → (v : SiteVisit) → (get_visit_by_mission m.id db).0 ≡ ok (some v)
      → v.status ≢ SiteVisitStatus.scheduled
      → check_in_fresh fl cmd draw db ≡ (err (raised_as ErrorClass.conflict), db)
  unfolding check_in_fresh
  fresh_refused a v h u = rw (guards_pass fl cmd draw.now db m e a, no_visit v h u)

  saved_lem :
      (j : ℕ) (found : Option SiteVisit)
      → let v = begun cmd draw (visit_or_new found draw.visit_id m.id) in
        get_visit v.id db ≡ found
        → get_visit j (save_visit v db).1 ≡ (if v.id == j then some v else get_visit j db)
  unfolding row_to_write new_visit
  saved_lem j none stored =
      rw (get_visit-save_visit (begun cmd draw (new_visit draw.visit_id m.id)) j db, stored) refl
  saved_lem j (some v) stored = rw (get_visit-save_visit (begun cmd draw v) j db, stored) refl

  -- An admissible check-in with an unused key succeeds on a mission whose visit does not exist, or
  -- is still scheduled, where the drawn id is that of no visit, or the visit is stored under its
  -- id. It answers with the visit's id and the pending state. The visit is then stored with the
  -- time, mode and position of this check-in, and every other visit is as before. Exactly one
  -- proof is added, that of the inspector's position. The answer and the proof have the status of
  -- that position: by its distance from the establishment's centre and the two radii.
  pub check_in_answers :
      (j : ℕ)
      → IsAdmissible fl cmd draw.now db m e
      → (get_response (Scope.check_in cmd.mission_id) cmd.client_request_id db).0 ≡ ok none
      → (found : Option SiteVisit) → (get_visit_by_mission m.id db).0 ≡ ok found
      → is_underway found ≡ false
      → get_visit (visit_or_new found draw.visit_id m.id).id db ≡ found
      → let v = begun cmd draw (visit_or_new found draw.visit_id m.id) in
        let after = transaction (check_in fl cmd draw) db in
        (after.0
          ≡ ok (Payload.checked_in v.id (position_status fl cmd e) SiteVisitStatus.pending_host))
        × (get_visit j after.1 ≡ (if v.id == j then some v else get_visit j db))
        × (after.1.presence_proofs ≡ db.presence_proofs ++ proof_of fl cmd draw e v.id ∷ [])
  unfolding transaction check_in check_in_write save_visit add_proof save_response get_response
      get_visit
  check_in_answers j a unused found h u stored =
      rw (unused, fresh_lem a found h u) (refl, saved_lem j found stored, refl)

  -- An admissible check-in with an unused key, on a mission whose visit has left the scheduled
  -- state, is a conflict and writes nothing.
  pub check_in_twice :
      IsAdmissible fl cmd draw.now db m e
      → (get_response (Scope.check_in cmd.mission_id) cmd.client_request_id db).0 ≡ ok none
      → (v : SiteVisit) → (get_visit_by_mission m.id db).0 ≡ ok (some v)
      → v.status ≢ SiteVisitStatus.scheduled
      → transaction (check_in fl cmd draw) db ≡ (err (raised_as ErrorClass.conflict), db)
  unfolding transaction check_in get_response
  check_in_twice a unused v h u = rw (unused, fresh_refused a v h u)
