-- ===== src/Safety/ConfirmHost.antt =====
-- A host's confirmation keeps the database sound
-- (application/use_cases/confirm_host_presence.py).
use mathlib.Core.Path.{subst}
use sigis_backend.Base.{
  ◌≡◌, ◌≢◌, refl, Text, none, some, ◌++◌, [], ◌∷◌, inl, inr, or_else, Option-cases, arith,
}
use sigis_backend.Base.Float.{Float}
use sigis_backend.Base.Table.{key_of_get}
use sigis_backend.Errors.{ok}
use sigis_backend.Domain.Mission.{Mission}
use sigis_backend.Domain.Presence.{GeofenceStatus, PresenceProof}
use sigis_backend.Domain.Visit.{
  SiteVisit, SiteVisitStatus, HostValidationMode, app_gps, qr_static, sms_shortcode,
  mark_copresence_ok,
}
use sigis_backend.Domain.Visit.Lifecycle.{IsCoherent}
use sigis_backend.Store.{Db, CoPresenceRow, Payload, Scope, transaction, ◌>>=◌}
use sigis_backend.Store.Binds.{>>=-Step}
use sigis_backend.Store.Visits.{get_visit, save_visit}
use sigis_backend.Store.Visits.Saved.{visit_id}
use sigis_backend.Store.Idempotency.{get_response, save_response}
use sigis_backend.Store.Idempotency.Keys.{save_response-UniqueKeys}
use sigis_backend.Store.Evidence.{add_proof, add_event, consume}
use sigis_backend.UseCases.ConfirmHost.{
  ConfirmHostCommand, ConfirmWorld, confirm_guards, confirm_mode, confirm_write, confirm_fresh,
  confirm_host,
}
use sigis_backend.Safety.Rollback.{replayed_keeps}
use sigis_backend.Safety.Invariant.{
  IsSound, IsEvident, same_visits-IsSound, saved_visit-IsSound, has_proof-append, has_event-append,
}

module _ (cmd : ConfirmHostCommand) (db : Db) where
  pub confirm_guards_lem :
      (v : SiteVisit) (m : Mission) (mode : HostValidationMode)
      → (confirm_guards cmd db).0 ≡ ok (v, m, mode)
      → (get_visit cmd.site_visit_id db ≡ some v)
        × (v.mission_id ≡ cmd.mission_id)
        × (v.host_validation_mode ≡ some mode)
  unfolding confirm_guards
  confirm_guards_lem v m mode h = (ground arith, ground arith, ground arith)

  pub confirm_guards_same : (confirm_guards cmd db).1 ≡ db
  unfolding confirm_guards
  confirm_guards_same = ground arith

-- What the three modes leave alone: all tables but that of the consumed tokens.
pub record SameTables (a b : Db) : Type 0 where
  pub visits : b.site_visits ≡ a.site_visits
  pub proofs : b.presence_proofs ≡ a.presence_proofs
  pub events : b.copresence_events ≡ a.copresence_events
  pub idempotency : b.idempotency ≡ a.idempotency
  pub missions : b.missions ≡ a.missions

-- What the three modes leave of the visit: all but the position of the host.
pub record SameVisit (v w : SiteVisit) : Type 0 where
  pub id : w.id ≡ v.id
  pub mission_id : w.mission_id ≡ v.mission_id
  pub status : w.status ≡ v.status
  pub checked_in_at : w.checked_in_at ≡ v.checked_in_at
  pub checked_out_at : w.checked_out_at ≡ v.checked_out_at
  pub inspector_lat : w.inspector_lat ≡ v.inspector_lat
  pub inspector_lon : w.inspector_lon ≡ v.inspector_lon

module _ (w : ConfirmWorld) (cmd : ConfirmHostCommand) (m : Mission) (v : SiteVisit) (db : Db) where
  pub mode-SameTables :
      (mode : HostValidationMode) → SameTables db (confirm_mode w cmd mode m v db).1
  unfolding confirm_mode consume
  mode-SameTables app_gps = ground arith
  mode-SameTables qr_static = ground arith
  mode-SameTables sms_shortcode = ground arith

  pub mode-SameVisit :
      (mode : HostValidationMode) (v' : SiteVisit)
      → (confirm_mode w cmd mode m v db).0 ≡ ok v'
      → SameVisit v v'
  unfolding confirm_mode consume
  mode-SameVisit app_gps v' h = ground arith
  mode-SameVisit qr_static v' h = ground arith
  mode-SameVisit sms_shortcode v' h = ground arith

abbrev pub marked : SiteVisit → SiteVisit
marked v = record v { status = SiteVisitStatus.copresence_ok }

abbrev the_proof : ConfirmWorld → ConfirmHostCommand → SiteVisit → Float → Float → PresenceProof
the_proof w cmd v lat lon = record {
  id = w.proof_id;
  site_visit_id = v.id;
  actor_user_id = cmd.host_user_id;
  recorded_at = w.now;
  latitude = lat;
  longitude = lon;
  geofence_status = GeofenceStatus.ok;
}

abbrev the_event : ConfirmWorld → SiteVisit → HostValidationMode → CoPresenceRow
the_event w v mode = record {
  event = record { id = w.event_id; site_visit_id = v.id; validated_at = w.now };
  host_validation_mode = mode;
}

-- The tables after a confirmation that went through.
pub record Confirmed (w : ConfirmWorld) (cmd : ConfirmHostCommand) (mode : HostValidationMode)
    (v : SiteVisit) (a b : Db) : Type 0 where
  pub lat : Float
  pub lon : Float
  pub pending : v.status ≡ SiteVisitStatus.pending_host
  pub visits : b.site_visits ≡ (save_visit (marked v) a).1.site_visits
  pub proofs : b.presence_proofs ≡ a.presence_proofs ++ the_proof w cmd v lat lon ∷ []
  pub events : b.copresence_events ≡ a.copresence_events ++ the_event w v mode ∷ []
  pub answers :
      b.idempotency
      ≡ (save_response
          (Scope.confirm_host cmd.site_visit_id)
          cmd.client_request_id
          w.now
          (Payload.confirmed SiteVisitStatus.copresence_ok v.id)
          a).1.idempotency

module _ (w : ConfirmWorld) (cmd : ConfirmHostCommand) (mode : HostValidationMode) (v : SiteVisit)
    (db : Db) where
  pub write-Confirmed :
      (p : Payload)
      → (confirm_write w cmd mode v db).0 ≡ ok p
      → Confirmed w cmd mode v db (confirm_write w cmd mode v db).1
  unfolding confirm_write mark_copresence_ok save_visit add_proof add_event save_response
  write-Confirmed p h = elim (Option-cases (or_else cmd.latitude v.inspector_lat)) [
    | inl no_lat ↦ absurd (ground arith)
    | inr (lat, elat) ↦ elim (Option-cases (or_else cmd.longitude v.inspector_lon)) [
      | inl no_lon ↦ absurd (ground arith)
      | inr (lon, elon) ↦ record {
        lat = lat;
        lon = lon;
        pending = ground arith;
        visits = ground arith;
        proofs = ground arith;
        events = ground arith;
        answers = ground arith;
      }
    ]
  ]

get_response_of :
    (s : Scope) (k : Text) (a b : Db)
    → b.idempotency ≡ a.idempotency
    → (get_response s k a).0 ≡ ok none
    → (get_response s k b).0 ≡ ok none
unfolding get_response
get_response_of s k a b e h = rw e h

SameTables-IsSound : (a b : Db) → SameTables a b → IsSound a → IsSound b
SameTables-IsSound a b t s =
    same_visits-IsSound a b s t.visits (rw t.idempotency s.keys)
      (record { proofs = λ i h. rw t.proofs h; events = λ i h. rw t.events h })

-- The marked visit with the rows that the confirmation adds.
marked-IsEvident :
    (w : ConfirmWorld) (cmd : ConfirmHostCommand) (mode : HostValidationMode) (v : SiteVisit)
    (a b : Db)
    → IsCoherent v
    → Confirmed w cmd mode v a b
    → IsEvident (marked v) b
marked-IsEvident w cmd mode v a b c d = record {
  coherent = ground (arith, c, d.pending);
  proof = λ h.
      rw d.proofs
        ((has_proof-append v.id a.presence_proofs (the_proof w cmd v d.lat d.lon)).1 refl);
  event =
      λ h. rw d.events ((has_event-append v.id a.copresence_events (the_event w v mode)).1 refl);
}

Confirmed-IsSound :
    (w : ConfirmWorld) (cmd : ConfirmHostCommand) (mode : HostValidationMode) (v : SiteVisit)
    (a b : Db)
    → IsSound a
    → (get_response (Scope.confirm_host cmd.site_visit_id) cmd.client_request_id a).0 ≡ ok none
    → IsCoherent v
    → get_visit v.id a ≢ none
    → Confirmed w cmd mode v a b
    → IsSound b
Confirmed-IsSound w cmd mode v a b s fresh c there d =
    saved_visit-IsSound (marked v) a b s (λ missing. absurd (there missing)) d.visits
      (rw d.answers (
        save_response-UniqueKeys (Scope.confirm_host cmd.site_visit_id) cmd.client_request_id w.now
          (Payload.confirmed SiteVisitStatus.copresence_ok v.id) a fresh s.keys))
      (record {
        proofs = λ i h.
            rw d.proofs
              ((has_proof-append i a.presence_proofs (the_proof w cmd v d.lat d.lon)).0 h);
        events =
            λ i h. rw d.events ((has_event-append i a.copresence_events (the_event w v mode)).0 h);
      })
      (marked-IsEvident w cmd mode v a b c d)

SameVisit-IsCoherent : (v v' : SiteVisit) → SameVisit v v' → IsCoherent v → IsCoherent v'
SameVisit-IsCoherent v v' t c = ground arith

-- The visit that the command names is found under its own id.
still_there :
    (cmd : ConfirmHostCommand) (v v' : SiteVisit) (a b : Db)
    → get_visit cmd.site_visit_id a ≡ some v
    → SameVisit v v'
    → SameTables a b
    → get_visit v'.id b ≢ none
unfolding get_visit
still_there cmd v v' a b found t same missing =
    ground (arith, key_of_get visit_id cmd.site_visit_id a.site_visits found)

-- A confirmation that goes through, step by step.
pub record Accepted (w : ConfirmWorld) (cmd : ConfirmHostCommand) (db : Db) : Type 0 where
  pub visit : SiteVisit
  pub mission : Mission
  pub mode : HostValidationMode
  pub located : SiteVisit
  pub guards : (confirm_guards cmd db).0 ≡ ok (visit, mission, mode)
  pub by_mode : (confirm_mode w cmd mode mission visit db).0 ≡ ok located
  pub whole :
      confirm_fresh w cmd db
      ≡ confirm_write w cmd mode located (confirm_mode w cmd mode mission visit db).1

pub fresh-Accepted :
    (w : ConfirmWorld) (cmd : ConfirmHostCommand) (db : Db) (p : Payload)
    → (confirm_fresh w cmd db).0 ≡ ok p
    → Accepted w cmd db
unfolding confirm_fresh
fresh-Accepted w cmd db p h =
    let rest = λ (x : SiteVisit × Mission × HostValidationMode).
      confirm_mode w cmd x.2 x.1 x.0 >>= confirm_write w cmd x.2 in
    let a = >>=-Step (confirm_guards cmd) rest db p h in
    let (v, m, mode) = a.result in
    let h' : (rest a.result db).0 ≡ ok p =
      subst (λ x. (rest a.result x).0 ≡ ok p) (confirm_guards_same cmd db) (rw a.rest at h) in
    let b = >>=-Step (confirm_mode w cmd mode m v) (confirm_write w cmd mode) db p h' in
    record {
      visit = v;
      mission = m;
      mode = mode;
      located = b.result;
      guards = a.first;
      by_mode = b.first;
      whole = rw (a.rest, confirm_guards_same cmd db, b.rest);
    }

-- The tables that the write begins with, and those that it leaves.
pub Accepted-Confirmed :
    (w : ConfirmWorld) (cmd : ConfirmHostCommand) (db : Db) (p : Payload)
    (h : (confirm_fresh w cmd db).0 ≡ ok p)
    → let a = fresh-Accepted w cmd db p h in
      Confirmed w cmd a.mode a.located
        (confirm_mode w cmd a.mode a.mission a.visit db).1
        (confirm_fresh w cmd db).1
Accepted-Confirmed w cmd db p h =
    let a = fresh-Accepted w cmd db p h in
    let db' = (confirm_mode w cmd a.mode a.mission a.visit db).1 in
    rw a.whole (write-Confirmed w cmd a.mode a.located db' p (rw a.whole at h))

fresh-IsSound :
    (w : ConfirmWorld) (cmd : ConfirmHostCommand) (db : Db) (p : Payload)
    → IsSound db
    → (get_response (Scope.confirm_host cmd.site_visit_id) cmd.client_request_id db).0 ≡ ok none
    → (confirm_fresh w cmd db).0 ≡ ok p
    → IsSound (confirm_fresh w cmd db).1
fresh-IsSound w cmd db p s fresh h =
    let a = fresh-Accepted w cmd db p h in
    let g = confirm_guards_lem cmd db a.visit a.mission a.mode a.guards in
    let db' = (confirm_mode w cmd a.mode a.mission a.visit db).1 in
    let same = mode-SameTables w cmd a.mission a.visit db a.mode in
    let kept = mode-SameVisit w cmd a.mission a.visit db a.mode a.located a.by_mode in
    Confirmed-IsSound w cmd a.mode a.located db' (confirm_fresh w cmd db).1
      (SameTables-IsSound db db' same s)
      (get_response_of (Scope.confirm_host cmd.site_visit_id) cmd.client_request_id db db'
        same.idempotency fresh)
      (SameVisit-IsCoherent a.visit a.located kept (s.visit cmd.site_visit_id a.visit g.0).coherent)
      (still_there cmd a.visit a.located db db' g.0 kept same) (Accepted-Confirmed w cmd db p h)

-- A confirmation, replayed, refused or accepted, leaves a sound database sound after its
-- transaction.
pub confirm_host-IsSound :
    (w : ConfirmWorld) (cmd : ConfirmHostCommand) (db : Db)
    → IsSound db
    → IsSound (transaction (confirm_host w cmd) db).1
unfolding confirm_host
confirm_host-IsSound w cmd db s =
    replayed_keeps IsSound (Scope.confirm_host cmd.site_visit_id) cmd.client_request_id
      (confirm_fresh w cmd) db s (λ p. fresh-IsSound w cmd db p s)
