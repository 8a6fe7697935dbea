-- ===== src/Api/Mobile.antt =====
-- The route `ingest_events_batch` of api/v1/mobile.py, and `AuditChainRepositoryImpl` of
-- infrastructure/persistence/sqlalchemy/extra_repos.py.
pub mod Chain
use sigis_backend.Base.{
  ℕ, Bool, ◌&&◌, ◌||◌, ◌==◌, not, Option, none, some, is_some, List, [], ◌∷◌, ◌++◌, map, Text,
  codes, text_eq, if◌then◌else◌,
}
use sigis_backend.Base.Float.{Float}
use sigis_backend.Base.Table.{first, get}
use sigis_backend.Base.Uuid.{uuid_text}
use sigis_backend.Time.{Datetime}
use sigis_backend.Errors.{Failure, ok, err}
use sigis_backend.Domain.MobileEvents.{MobileDevice, MobileEvent}
use sigis_backend.Store.{Db, Exec, pure, gets, lift, AuditChainEntry, ◌>>=◌, ◌>>◌}
use sigis_backend.Store.Visits.{scalar_one_or_none}

pub record MobileGps : Type 0 where
  pub lat : Float
  pub lon : Float
  pub accuracy_m : Option Float
  pub provider : Option Text

pub record MobileMediaSelfie : Type 0 where
  pub sha256 : Text
  pub mime : Option Text
  pub w : Option ℕ
  pub h : Option ℕ

-- An event that has passed the checks of the schema. `raw_json` is its JSON text, which the route
-- prints.
pub record MobileEventIn : Type 0 where
  pub event_id : ℕ
  pub type_name : Text
  pub mission_id : ℕ
  pub site_visit_id : Option ℕ
  pub actor_user_id : ℕ
  pub device_id : ℕ
  pub device_public_key : Text
  pub client_request_id : Text
  pub captured_at_client : Datetime
  pub gps : Option MobileGps
  pub selfie : Option MobileMediaSelfie
  pub prev_event_hash : Option Text
  pub event_hash : Text
  pub signature_ed25519 : Text
  pub raw_json : Text

pub data MobileEventStatus : Type 0 where
  received actor_mismatch device_key_mismatch : MobileEventStatus

pub record MobileEventResult : Type 0 where
  pub event_id : ℕ
  pub status : MobileEventStatus

-- `x.f if x else None`
abbrev then_field : {A B : Type 0} → Option A → (A → Option B) → Option B
then_field none f = none
then_field (some a) f = f a

abbrev pub device_id_of : MobileDevice → ℕ
device_id_of d = d.id

-- `AuditChainRepositoryImpl.get_last_hash`: all hashes are selected, and more than one is an
-- error, so their order does not matter.
unfoldable pub get_last_hash : Exec (Option Text)
get_last_hash db =
    (scalar_one_or_none (map (λ (x : AuditChainEntry). x.entry_hash) db.audit_chain), db)

-- `AuditChainRepositoryImpl.append`
unfoldable pub append_entry : AuditChainEntry → Exec (Unit {0})
append_entry entry db = (ok tt, record db { audit_chain = db.audit_chain ++ entry ∷ [] })

-- `session.add(device)`, with the primary key and `uq_mobile_device_user_pk`.
unfoldable pub add_device : MobileDevice → Exec (Unit {0})
add_device device db =
    if is_some (get device_id_of device.id db.mobile_devices)
      || is_some (
          first
            (λ (d : MobileDevice).
              (d.user_id == device.user_id)
              && text_eq d.public_key_ed25519 device.public_key_ed25519)
            db.mobile_devices)
    then (err Failure.integrity_error, db)
    else (ok tt, record db { mobile_devices = db.mobile_devices ++ device ∷ [] })

-- The primary key, `uq_mobile_event_device_client_req` and `uq_mobile_event_device_hash`.
abbrev pub same_event : MobileEvent → MobileEvent → Bool
same_event row r =
    (r.id == row.id)
    || ((r.device_id == row.device_id)
        && (text_eq r.client_request_id row.client_request_id
            || text_eq r.event_hash row.event_hash))

-- `session.add(row)`; the constraint is checked at the next flush, which ends the request alike.
unfoldable pub add_mobile_event : MobileEvent → Exec (Unit {0})
add_mobile_event row db =
    if is_some (first (same_event row) db.mobile_events)
    then (err Failure.integrity_error, db)
    else (ok tt, record db { mobile_events = db.mobile_events ++ row ∷ [] })

unfoldable pub event_row : ℕ → Datetime → MobileEventIn → MobileEvent
event_row user now e = record {
  id = e.event_id;
  event_type = e.type_name;
  mission_id = e.mission_id;
  site_visit_id = e.site_visit_id;
  actor_user_id = user;
  device_id = e.device_id;
  client_request_id = e.client_request_id;
  captured_at_client = e.captured_at_client;
  received_at_server = now;
  gps_lat = then_field e.gps (λ (g : MobileGps). some g.lat);
  gps_lon = then_field e.gps (λ (g : MobileGps). some g.lon);
  gps_accuracy_m = then_field e.gps (λ (g : MobileGps). g.accuracy_m);
  gps_provider = then_field e.gps (λ (g : MobileGps). g.provider);
  selfie_sha256 = then_field e.selfie (λ (s : MobileMediaSelfie). some s.sha256);
  selfie_mime = then_field e.selfie (λ (s : MobileMediaSelfie). s.mime);
  selfie_w = then_field e.selfie (λ (s : MobileMediaSelfie). s.w);
  selfie_h = then_field e.selfie (λ (s : MobileMediaSelfie). s.h);
  prev_event_hash = e.prev_event_hash;
  event_hash = e.event_hash;
  signature_ed25519 = e.signature_ed25519;
  raw_json = e.raw_json;
}

-- `f"{prev_chain_hash or ''}:{event_hash}"`
abbrev pub chained_text : Option Text → Text → Text
chained_text none event_hash = b':' ∷ event_hash
chained_text (some prev) event_hash = prev ++ b':' ∷ event_hash

-- One event: its result, and the last hash of the chain after it. `sha256(...).hexdigest()` is
-- `digest`; the number is the UUID of the entry.
module _ (digest : Text → Text) (user : ℕ) (now : Datetime) where
  unfoldable pub chain_entry : ℕ → Option Text → MobileEvent → AuditChainEntry
  chain_entry id prev row = record {
    id = id;
    created_at = now;
    resource_type = codes "mobile_event";
    resource_id = some (uuid_text row.id);
    prev_hash = prev;
    entry_hash = digest (chained_text prev row.event_hash);
  }

  abbrev pub answer : MobileEventIn → MobileEventStatus → MobileEventResult
  answer e status = record { event_id = e.event_id; status = status }

  unfoldable pub receive : ℕ → Option Text → MobileEventIn → Exec (MobileEventResult × Option Text)
  receive id prev e = do
    let row = event_row user now e
    add_mobile_event row
    let entry = chain_entry id prev row
    append_entry entry
    pure (answer e MobileEventStatus.received, some entry.entry_hash)

  unfoldable pub with_device :
      ℕ → Option Text → MobileEventIn → Option MobileDevice → Exec (MobileEventResult × Option Text)
  unfolding receive
  with_device id prev e none = do
    add_device record {
      id = e.device_id;
      user_id = user;
      public_key_ed25519 = e.device_public_key;
      created_at = now;
      revoked_at = none;
    }
    receive id prev e
  with_device id prev e (some device) =
      if text_eq device.public_key_ed25519 e.device_public_key
      then receive id prev e
      else pure (answer e MobileEventStatus.device_key_mismatch, prev)

  unfoldable pub ingest_event :
      ℕ → Option Text → MobileEventIn → Exec (MobileEventResult × Option Text)
  unfolding with_device
  ingest_event id prev e =
      if not (e.actor_user_id == user)
      then pure (answer e MobileEventStatus.actor_mismatch, prev)
      else (do
        found ← gets (λ (db : Db). get device_id_of e.device_id db.mobile_devices)
        with_device id prev e found)

  -- The loop, over the events and the UUIDs of their entries.
  unfoldable pub ingest : Option Text → List (ℕ × MobileEventIn) → Exec (List MobileEventResult)
  ingest prev [] = pure []
  ingest prev ((id, e) ∷ es) = do
    (result, last) ← ingest_event id prev e
    results ← ingest last es
    pure (result ∷ results)

  -- `ingest_events_batch`, without the cursor.
  unfoldable pub ingest_events_batch : List (ℕ × MobileEventIn) → Exec (List MobileEventResult)
  ingest_events_batch events = do prev ← get_last_hash; ingest prev events
