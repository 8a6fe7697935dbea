-- ===== src/Safety/Needs.antt =====
-- What a success of the three visit operations proves about the request and the database.
use sigis_backend.Base.{
  ℕ, sym, ap, ◌∙◌, ◌≡◌, ◌≢◌, ◌≤◌, ◌+◌, ◌*◌, inl, inr, none, some, false, or_else, Option-cases,
  arith,
}
use sigis_backend.Base.Float.{Float, FloatOps}
use sigis_backend.Time.{Datetime, instant, to_utc}
use sigis_backend.Errors.{ok, Result-cases}
use sigis_backend.Domain.Mission.{Mission, MissionStatus}
use sigis_backend.Domain.Presence.{GeofenceStatus}
use sigis_backend.Domain.Establishment.{Establishment}
use sigis_backend.Domain.Visit.{
  SiteVisit, SiteVisitStatus, HostValidationMode, app_gps, check_out, start_check_in,
}
use sigis_backend.Domain.CoPresence.{assert_copresence_mode_a}
use sigis_backend.Domain.Geo.{haversine_m}
use sigis_backend.Store.{Db, Payload}
use sigis_backend.Store.Missions.{get_mission, get_establishment}
use sigis_backend.Store.Visits.{get_visit, get_visit_by_mission}
use sigis_backend.Store.Evidence.{add_proof}
use sigis_backend.UseCases.CheckIn.{
  CheckInInspectorCommand, CheckInDraw, check_in_guards, check_in_visit, check_in_write,
  check_in_fresh, default_copresence_params,
}
use sigis_backend.UseCases.CheckIn.Accepts.{IsAdmissible, guards_need, guards_pass, position_status}
use sigis_backend.UseCases.ConfirmHost.{
  ConfirmHostCommand, ConfirmWorld, confirm_guards, confirm_mode, confirm_fresh,
}
use sigis_backend.Store.Visits.{save_visit}
use sigis_backend.Store.Idempotency.{save_response}
use sigis_backend.UseCases.CheckOut.{
  presence_duration, CheckOutCommand, check_out_guards, check_out_write, check_out_fresh,
}
use sigis_backend.Safety.CheckIn
use sigis_backend.Safety.ConfirmHost
use sigis_backend.Safety.CheckOut

-- The mission and the place of a check-in, and its answer.
pub record Admitted (fl : FloatOps) (cmd : CheckInInspectorCommand) (now : Datetime) (db : Db)
    (p : Payload) : Type 0 where
  pub mission : Mission
  pub place : Establishment
  pub visit_id : ℕ
  pub admissible : IsAdmissible fl cmd now db mission place
  pub answer :
      p ≡ Payload.checked_in visit_id (position_status fl cmd place) SiteVisitStatus.pending_host

-- The answer says the status that the guards found.
told :
    (cmd : CheckInInspectorCommand) (draw : CheckInDraw) (gf : GeofenceStatus) (v : SiteVisit)
    (db : Db) (p : Payload)
    → (check_in_write cmd draw gf v db).0 ≡ ok p
    → p ≡ Payload.checked_in v.id gf v.status
unfolding check_in_write save_visit add_proof save_response
told cmd draw gf v db p h = ground (arith, h)

left_pending :
    (cmd : CheckInInspectorCommand) (draw : CheckInDraw) (m : Mission) (v : SiteVisit) (db : Db)
    → (check_in_visit cmd draw m db).0 ≡ ok v
    → v.status ≡ SiteVisitStatus.pending_host
unfolding check_in_visit get_visit_by_mission start_check_in
left_pending cmd draw m v db h = elim (Result-cases (get_visit_by_mission m.id db).0) [
  | inr (e, failed) ↦ absurd (ground (arith, h, failed))
  | inl (none, found) ↦ ground (arith, h, found)
  | inl (some v', found) ↦ ground (arith, h, found)
]

guards-Admitted :
    (fl : FloatOps) (cmd : CheckInInspectorCommand) (now : Datetime) (db : Db) (m : Mission)
    (gf : GeofenceStatus) (p : Payload) (vid : ℕ)
    → (check_in_guards fl cmd now db).0 ≡ ok (m, gf)
    → p ≡ Payload.checked_in vid gf SiteVisitStatus.pending_host
    → Admitted fl cmd now db p
unfolding check_in_guards
guards-Admitted fl cmd now db m gf p vid h said =
    elim (Option-cases (get_mission cmd.mission_id db)) [
      | inl no_mission ↦ absurd (ground (arith, h, no_mission))
      | inr (m', em) ↦ elim (Option-cases (get_establishment m'.establishment_id db)) [
        | inl no_place ↦ absurd (ground (arith, h, no_place, em))
        | inr (e, ee) ↦
            let same : m' ≡ m = ground (arith, h, em, ee) in
            let a = guards_need fl cmd now db m' e gf em ee (rw same h) in
            let status : gf ≡ position_status fl cmd e =
              ground (arith, h, guards_pass fl cmd now db m' e a) in
            record {
              mission = m';
              place = e;
              visit_id = vid;
              admissible = a;
              answer =
                  said ∙ ap (λ g. Payload.checked_in vid g SiteVisitStatus.pending_host) status;
            }
      ]
    ]

-- A check-in that does its work finds its mission, which is not a draft, is the inspector's own
-- and is in its window, and the mission's establishment. By the distance of the given position
-- from the establishment's centre, the inspector is within its strict or its relaxed radius, and
-- the answer says which, with the pending state.
pub check_in_needs :
    (fl : FloatOps) (cmd : CheckInInspectorCommand) (draw : CheckInDraw) (db : Db) (p : Payload)
    → (check_in_fresh fl cmd draw db).0 ≡ ok p
    → Admitted fl cmd draw.now db p
check_in_needs fl cmd draw db p h =
    let a = CheckIn.fresh-Accepted fl cmd draw db p h in
    let written : (check_in_write cmd draw a.status a.visit db).0 ≡ ok p = rw (sym a.whole) h in
    guards-Admitted fl cmd draw.now db a.mission a.status p a.visit.id a.guards (
      told cmd draw a.status a.visit db p written
      ∙ ap (λ s. Payload.checked_in a.visit.id a.status s)
          (left_pending cmd draw a.mission a.visit db a.begun))

-- Both positions of the mode `app_gps`: known, the host's not later than 15 minutes after the
-- check-in, and not more than 100 metres apart.
pub record IsClose (w : ConfirmWorld) (cmd : ConfirmHostCommand) (visit : SiteVisit) : Type 0 where
  pub lat : Float
  pub lon : Float
  pub inspector_lat : Float
  pub inspector_lon : Float
  pub came : Datetime
  pub given : (cmd.latitude ≡ some lat) × (cmd.longitude ≡ some lon)
  pub stored :
      (visit.inspector_lat ≡ some inspector_lat)
      × (visit.inspector_lon ≡ some inspector_lon)
      × (visit.checked_in_at ≡ some came)
  pub in_time : instant w.now ≤ instant came + 15 * 60000000
  pub near :
      w.floats.gt (haversine_m w.floats inspector_lat inspector_lon lat lon) (w.floats.of_int 100)
      ≡ false

-- What a confirmation rests on.
pub record HostAdmitted (w : ConfirmWorld) (cmd : ConfirmHostCommand) (db : Db) : Type 0 where
  pub visit : SiteVisit
  pub mission : Mission
  pub place : Establishment
  pub mode : HostValidationMode
  pub found : get_visit cmd.site_visit_id db ≡ some visit
  pub of_mission : visit.mission_id ≡ cmd.mission_id
  pub planned : get_mission cmd.mission_id db ≡ some mission
  pub not_draft : mission.status ≢ MissionStatus.draft
  pub at : get_establishment mission.establishment_id db ≡ some place
  pub host :
      (d : ℕ)
      → or_else mission.designated_host_user_id place.designated_host_user_id ≡ some d
      → cmd.host_user_id ≡ d
  pub in_mode : visit.host_validation_mode ≡ some mode
  pub pending : visit.status ≡ SiteVisitStatus.pending_host
  pub close : mode ≡ app_gps → IsClose w cmd visit

gps-IsClose :
    (w : ConfirmWorld) (cmd : ConfirmHostCommand) (m : Mission) (v v' : SiteVisit) (db : Db)
    → (confirm_mode w cmd app_gps m v db).0 ≡ ok v'
    → IsClose w cmd v
unfolding confirm_mode assert_copresence_mode_a default_copresence_params instant
gps-IsClose w cmd m v v' db h = elim (Option-cases cmd.latitude) [
  | inl missing ↦ absurd (ground (arith, h, missing))
  | inr (lat, elat) ↦ elim (Option-cases cmd.longitude) [
    | inl missing ↦ absurd (ground (arith, h, missing, elat))
    | inr (lon, elon) ↦ elim (Option-cases v.inspector_lat) [
      | inl missing ↦ absurd (ground (arith, h, missing, elat, elon))
      | inr (ilat, eilat) ↦ elim (Option-cases v.inspector_lon) [
        | inl missing ↦ absurd (ground (arith, h, missing, elat, elon, eilat))
        | inr (ilon, eilon) ↦ elim (Option-cases v.checked_in_at) [
          | inl missing ↦ absurd (ground (arith, h, missing, elat, elon, eilat, eilon))
          | inr (came, ecame) ↦ record {
            lat = lat;
            lon = lon;
            inspector_lat = ilat;
            inspector_lon = ilon;
            came = came;
            given = (elat, elon);
            stored = (eilat, eilon, ecame);
            in_time = ground arith;
            near = ground arith;
          }
        ]
      ]
    ]
  ]
]

guards-HostAdmitted :
    (w : ConfirmWorld) (cmd : ConfirmHostCommand) (db : Db) (v : SiteVisit) (m : Mission)
    (mode : HostValidationMode)
    → (confirm_guards cmd db).0 ≡ ok (v, m, mode)
    → v.status ≡ SiteVisitStatus.pending_host
    → (mode ≡ app_gps → IsClose w cmd v)
    → HostAdmitted w cmd db
unfolding confirm_guards
guards-HostAdmitted w cmd db v m mode h pending close =
    elim (Option-cases (get_establishment m.establishment_id db)) [
      | inl missing ↦ absurd (ground (arith, h, missing))
      | inr (e, ee) ↦ record {
        visit = v;
        mission = m;
        place = e;
        mode = mode;
        found = ground (arith, h);
        of_mission = ground (arith, h);
        planned = ground (arith, h);
        not_draft = ground (arith, h);
        at = ee;
        host = λ d k. ground (arith, h, ee, k);
        in_mode = ground (arith, h);
        pending = pending;
        close = close;
      }
    ]

-- A host's confirmation that does its work finds its visit, pending and of the mission that the
-- command names, which is not a draft; if the mission, or else its establishment, designates a
-- host, it is the one who confirms; and in the mode `app_gps` both positions are known and not
-- more than 100 metres apart, and the clock of the confirmation reads at most 15 minutes after the
-- check-in (a reading before the check-in is not excluded).
pub confirm_host_needs :
    (w : ConfirmWorld) (cmd : ConfirmHostCommand) (db : Db) (p : Payload)
    → (confirm_fresh w cmd db).0 ≡ ok p
    → HostAdmitted w cmd db
confirm_host_needs w cmd db p h =
    let a = ConfirmHost.fresh-Accepted w cmd db p h in
    let same = ConfirmHost.mode-SameVisit w cmd a.mission a.visit db a.mode a.located a.by_mode in
    guards-HostAdmitted w cmd db a.visit a.mission a.mode a.guards
      (ground (arith, same.status, (ConfirmHost.Accepted-Confirmed w cmd db p h).pending))
      (λ is_gps. gps-IsClose w cmd a.mission a.visit a.located db (rw is_gps at a.by_mode))

-- What a check-out rests on, and its answer.
pub record Departure (cmd : CheckOutCommand) (now : Datetime) (db : Db) (p : Payload) : Type 0 where
  pub mission : Mission
  pub visit : SiteVisit
  pub planned : get_mission cmd.mission_id db ≡ some mission
  pub own : mission.inspector_id ≡ cmd.inspector_user_id
  pub found : get_visit cmd.site_visit_id db ≡ some visit
  pub of_mission : visit.mission_id ≡ cmd.mission_id
  pub confirmed : visit.status ≡ SiteVisitStatus.copresence_ok
  pub not_out : visit.checked_out_at ≡ none
  pub answer :
      p
      ≡ Payload.checked_out SiteVisitStatus.completed
          (some (to_utc now))
          (presence_duration visit.checked_in_at (some (to_utc now)))

out-Departure :
    (cmd : CheckOutCommand) (now : Datetime) (db : Db) (p : Payload) (v closed : SiteVisit)
    → (check_out_guards cmd db).0 ≡ ok v
    → check_out v now ≡ ok closed
    → (check_out_write cmd now closed db).0 ≡ ok p
    → Departure cmd now db p
unfolding check_out_guards check_out check_out_write save_visit save_response
out-Departure cmd now db p v closed h c a = elim (Option-cases (get_mission cmd.mission_id db)) [
  | inl missing ↦ absurd (ground (arith, h, missing))
  | inr (m, em) ↦ record {
    mission = m;
    visit = v;
    planned = em;
    own = ground (arith, h, em);
    found = ground (arith, h);
    of_mission = ground (arith, h);
    confirmed = ground (arith, c);
    not_out = ground (arith, c);
    answer = ground (arith, c, a);
  }
]

-- A check-out that does its work is asked by the inspector of the mission, on a visit of that
-- mission whose co-presence has been validated and that has no check-out time; it answers
-- that the visit is completed now, with the signed time since the check-in.
pub check_out_needs :
    (cmd : CheckOutCommand) (now : Datetime) (db : Db) (p : Payload)
    → (check_out_fresh cmd now db).0 ≡ ok p
    → Departure cmd now db p
check_out_needs cmd now db p h =
    let a = CheckOut.fresh-Accepted cmd now db p h in
    out-Departure cmd now db p a.visit a.closed a.guards a.closing (rw a.whole at h)
