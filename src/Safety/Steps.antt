-- ===== src/Safety/Steps.antt =====
-- What a first check-in, a confirmation by the two positions and a check-out answer and leave
-- (application/use_cases/check_in_inspector.py, confirm_host_presence.py, check_out_visit.py).
use sigis_backend.Base.{
  ℕ, ◌≡◌, ◌≢◌, refl, ◌∙◌, Bool, false, none, some, or_else, List, [], ◌∷◌, ◌++◌, Text, select,
  arith,
}
use sigis_backend.Base.Float.{Float, FloatOps}
use sigis_backend.Time.{Datetime, to_utc}
use sigis_backend.Errors.{ok}
use sigis_backend.Domain.Mission.{Mission, MissionStatus}
use sigis_backend.Domain.Establishment.{Establishment}
use sigis_backend.Domain.Geo.{haversine_m}
use sigis_backend.Domain.CoPresence.{assert_copresence_mode_a}
use sigis_backend.Domain.Visit.{
  SiteVisit, SiteVisitStatus, app_gps, new_visit, mark_copresence_ok, check_out,
}
use sigis_backend.Store.{Db, Scope, scope_eq, Payload, IdempotencyRecord, transaction}
use sigis_backend.Store.Missions.{get_mission, get_establishment}
use sigis_backend.Store.Visits.{
  get_visit, get_visit_by_mission, save_visit, row_to_write, apply_site_visit_to_row,
}
use sigis_backend.Store.Visits.Saved.{get_visit-save_visit}
use sigis_backend.Store.Idempotency.{get_response, save_response, has_key}
use sigis_backend.Store.Evidence.{add_proof, add_event}
use sigis_backend.UseCases.CheckIn.{
  CheckInInspectorCommand, CheckInDraw, check_in, check_in_write, default_copresence_params,
}
use sigis_backend.UseCases.CheckIn.Accepts.{position_status, IsAdmissible}
use sigis_backend.UseCases.CheckIn.Answers.{fresh_lem, begun}
use sigis_backend.UseCases.ConfirmHost.{
  ConfirmWorld, ConfirmHostCommand, confirm_host, confirm_fresh, confirm_guards, confirm_mode,
  confirm_write, is_other_host,
}
use sigis_backend.UseCases.CheckOut.{
  CheckOutCommand, check_out_visit, check_out_fresh, check_out_guards, check_out_write,
  presence_duration,
}

-- What a confirmation by the two positions asks of the visit, the host and the positions.
pub record IsConfirmable (w : ConfirmWorld) (cmd : ConfirmHostCommand) (db : Db) (v : SiteVisit)
    (m : Mission) (e : Establishment) (cin : Datetime) (ilat ilon lat lon : Float) : Type 0 where
  pub visit : get_visit cmd.site_visit_id db ≡ some v
  pub own : v.mission_id ≡ cmd.mission_id
  pub mission : get_mission cmd.mission_id db ≡ some m
  pub not_draft : m.status ≢ MissionStatus.draft
  pub place : get_establishment m.establishment_id db ≡ some e
  pub host :
      is_other_host (or_else m.designated_host_user_id e.designated_host_user_id) cmd.host_user_id
      ≡ false
  pub mode : v.host_validation_mode ≡ some app_gps
  pub pending : v.status ≡ SiteVisitStatus.pending_host
  pub cin_time : v.checked_in_at ≡ some cin
  pub inspector_lat : v.inspector_lat ≡ some ilat
  pub inspector_lon : v.inspector_lon ≡ some ilon
  pub host_lat : cmd.latitude ≡ some lat
  pub host_lon : cmd.longitude ≡ some lon
  pub together :
      assert_copresence_mode_a w.floats cin w.now
        (haversine_m w.floats ilat ilon lat lon)
        (default_copresence_params w.floats)
      ≡ ok tt
  pub unused :
      (get_response (Scope.confirm_host cmd.site_visit_id) cmd.client_request_id db).0 ≡ ok none

abbrev pub confirmed_visit : SiteVisit → Float → Float → SiteVisit
confirmed_visit v lat lon = record v {
  host_lat = some lat;
  host_lon = some lon;
  status = SiteVisitStatus.copresence_ok;
}

abbrev pub stored_answer : Scope → Text → Datetime → Payload → IdempotencyRecord
stored_answer scope key now payload = record {
  scope = scope;
  client_key = key;
  created_at = now;
  response_body = payload;
}

module _ (w : ConfirmWorld) (cmd : ConfirmHostCommand) (db : Db) (v : SiteVisit) (m : Mission)
    (e : Establishment) (cin : Datetime) (ilat ilon lat lon : Float)
    (c : IsConfirmable w cmd db v m e cin ilat ilon lat lon) where
  guards_lem : confirm_guards cmd db ≡ (ok (v, m, app_gps), db)
  unfolding confirm_guards
  guards_lem = ground (arith, c.visit, c.own, c.mission, c.not_draft, c.place, c.host, c.mode)

  mode_lem :
      confirm_mode w cmd app_gps m v db
      ≡ (ok (record v { host_lat = some lat; host_lon = some lon }), db)
  unfolding confirm_mode
  mode_lem =
      rw (c.host_lat, c.host_lon, c.inspector_lat, c.inspector_lon, c.cin_time, c.together) refl

  write_lem :
      let after =
        confirm_write w cmd app_gps (record v { host_lat = some lat; host_lon = some lon }) db in
      (after.0 ≡ ok (Payload.confirmed SiteVisitStatus.copresence_ok v.id))
      × (after.1.site_visits ≡ (save_visit (confirmed_visit v lat lon) db).1.site_visits)
      × (after.1.missions ≡ db.missions)
      × (after.1.idempotency
          ≡ db.idempotency
            ++ stored_answer
                (Scope.confirm_host cmd.site_visit_id)
                cmd.client_request_id
                w.now
                (Payload.confirmed SiteVisitStatus.copresence_ok v.id)
              ∷ [])
  unfolding confirm_write mark_copresence_ok save_visit add_proof add_event save_response
  write_lem = rw (c.pending, c.host_lat, c.host_lon) (refl, refl, refl, refl)

  confirm_lem :
      transaction (confirm_host w cmd) db
      ≡ confirm_write w cmd app_gps (record v { host_lat = some lat; host_lon = some lon }) db
  unfolding transaction confirm_host confirm_fresh get_response
  confirm_lem = rw (c.unused, guards_lem, mode_lem, write_lem.0) refl

  pub confirmation_lem :
      let after = transaction (confirm_host w cmd) db in
      (after.0 ≡ ok (Payload.confirmed SiteVisitStatus.copresence_ok v.id))
      × (after.1.site_visits ≡ (save_visit (confirmed_visit v lat lon) db).1.site_visits)
      × (after.1.missions ≡ db.missions)
      × (after.1.idempotency
          ≡ db.idempotency
            ++ stored_answer
                (Scope.confirm_host cmd.site_visit_id)
                cmd.client_request_id
                w.now
                (Payload.confirmed SiteVisitStatus.copresence_ok v.id)
              ∷ [])
  confirmation_lem = rw confirm_lem write_lem

-- A first check-in, and what it leaves.
module _ (fl : FloatOps) (cmd : CheckInInspectorCommand) (draw : CheckInDraw) (db : Db)
    (m : Mission) (e : Establishment) (a : IsAdmissible fl cmd draw.now db m e)
    (unused : (get_response (Scope.check_in cmd.mission_id) cmd.client_request_id db).0 ≡ ok none)
    (first_one : (get_visit_by_mission m.id db).0 ≡ ok none) where
  pub arrival_lem :
      let v = begun cmd draw (new_visit draw.visit_id m.id) in
      let payload =
        Payload.checked_in v.id (position_status fl cmd e) SiteVisitStatus.pending_host in
      let after = transaction (check_in fl cmd draw) db in
      (after.0 ≡ ok payload)
      × (after.1.site_visits ≡ (save_visit v db).1.site_visits)
      × (after.1.missions ≡ db.missions)
      × (after.1.establishments ≡ db.establishments)
      × (after.1.idempotency
          ≡ db.idempotency
            ++ stored_answer (Scope.check_in cmd.mission_id) cmd.client_request_id draw.now payload
              ∷ [])
  unfolding transaction check_in check_in_write save_visit add_proof save_response get_response
      new_visit
  arrival_lem =
      rw (unused, fresh_lem fl cmd draw db m e a none first_one refl) (refl, refl, refl, refl, refl)

abbrev pub closed_visit : SiteVisit → Datetime → SiteVisit
closed_visit v now = record v {
  checked_out_at = some (to_utc now);
  status = SiteVisitStatus.completed;
}

-- What a check-out asks.
pub record IsLeavable (cmd : CheckOutCommand) (db : Db) (v : SiteVisit) (m : Mission) : Type 0 where
  pub mission : get_mission cmd.mission_id db ≡ some m
  pub assigned : m.inspector_id ≡ cmd.inspector_user_id
  pub visit : get_visit cmd.site_visit_id db ≡ some v
  pub own : v.mission_id ≡ cmd.mission_id
  pub validated : v.status ≡ SiteVisitStatus.copresence_ok
  pub still_there : v.checked_out_at ≡ none
  pub unused :
      (get_response (Scope.check_out cmd.site_visit_id) cmd.client_request_id db).0 ≡ ok none

pub departure_lem :
    (cmd : CheckOutCommand) (now : Datetime) (db : Db) (v : SiteVisit) (m : Mission)
    → IsLeavable cmd db v m
    → let after = transaction (check_out_visit cmd now) db in
      (after.0
        ≡ ok (
            Payload.checked_out SiteVisitStatus.completed
              (some (to_utc now))
              (presence_duration v.checked_in_at (some (to_utc now)))))
      × (after.1.site_visits ≡ (save_visit (closed_visit v now) db).1.site_visits)
unfolding transaction check_out_visit check_out_fresh check_out_guards check_out_write check_out
    save_visit save_response get_response
departure_lem cmd now db v m c =
    let guards : check_out_guards cmd db ≡ (ok v, db) =
      ground (arith, c.mission, c.assigned, c.visit, c.own) in
    rw (c.unused, guards, c.validated, c.still_there) (refl, refl)

-- The row of a visit that was saved.
pub row_lem :
    (v : SiteVisit) (db db' : Db)
    → db'.site_visits ≡ (save_visit v db).1.site_visits
    → get_visit v.id db' ≡ some (row_to_write v (get_visit v.id db))
unfolding get_visit
row_lem v db db' s = rw s (get_visit-save_visit v v.id db ∙ ground arith)

pub select_other :
    {A : Type 0} (p : A → Bool) (xs : List A) (x : A)
    → p x ≡ false
    → select p (xs ++ x ∷ []) ≡ select p xs
select_other p [] x h = rw h refl
select_other p (y ∷ xs) x h = rw (select_other p xs x h) refl

-- A visit that was saved is found, new or as the next state of the visit that was there.
pub found_new :
    (v : SiteVisit) (db db' : Db)
    → get_visit v.id db ≡ none
    → db'.site_visits ≡ (save_visit v db).1.site_visits
    → get_visit v.id db' ≡ some v
unfolding row_to_write
found_new v db db' fresh s = row_lem v db db' s ∙ rw fresh refl

pub found_next :
    (v old : SiteVisit) (db db' : Db)
    → get_visit v.id db ≡ some old
    → old.id ≡ v.id
    → old.mission_id ≡ v.mission_id
    → db'.site_visits ≡ (save_visit v db).1.site_visits
    → get_visit v.id db' ≡ some v
unfolding row_to_write apply_site_visit_to_row
found_next v old db db' there same own s = row_lem v db db' s ∙ rw there (ground (arith, same, own))

pub same_missions :
    (i : ℕ) (db db' : Db) → db'.missions ≡ db.missions → get_mission i db' ≡ get_mission i db
unfolding get_mission
same_missions i db db' s = rw s refl

pub same_places :
    (i : ℕ) (db db' : Db)
    → db'.establishments ≡ db.establishments
    → get_establishment i db' ≡ get_establishment i db
unfolding get_establishment
same_places i db db' s = rw s refl

-- An answer that was stored in another scope is not found.
pub other_scope :
    (scope scope' : Scope) (key key' : Text) (now : Datetime) (payload : Payload) (db db' : Db)
    → scope_eq scope scope' ≡ false
    → db'.idempotency ≡ db.idempotency ++ stored_answer scope key now payload ∷ []
    → (get_response scope' key' db').0 ≡ (get_response scope' key' db).0
unfolding get_response
other_scope scope scope' key key' now payload db db' o s =
    let other : has_key scope' key' (stored_answer scope key now payload) ≡ false =
      ground (arith, o) in
    rw
      (
        s,
        select_other (has_key scope' key') db.idempotency (stored_answer scope key now payload)
            other,
      )
      refl
