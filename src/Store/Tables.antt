-- ===== src/Store/Tables.antt =====
-- The tables of models.py.
use sigis_backend.Base.{ℕ, Bool, false, Option, List, Text, ◌==◌}
use sigis_backend.Base.Int.{ℤ}
use sigis_backend.Time.{Datetime}
use sigis_backend.Domain.Mission.{Mission, MissionOutcome}
use sigis_backend.Domain.Visit.{SiteVisit, SiteVisitStatus, HostValidationMode}
use sigis_backend.Domain.Presence.{PresenceProof, GeofenceStatus, CoPresenceEvent}
use sigis_backend.Domain.Establishment.{Establishment}
use sigis_backend.Domain.Exceptions.{ExceptionRequest}
use sigis_backend.Domain.Users.{User}
use sigis_backend.Domain.MobileEvents.{MobileDevice, MobileEvent}
use sigis_backend.Store.Roles.{RolePermission}

-- The scopes `f"check_in:{mission_id}"`, `f"confirm_host:{site_visit_id}"` and
-- `f"check_out:{site_visit_id}"`: the text of a UUID determines it, so these texts differ where
-- these values do.
pub data Scope : Type 0 where
  check_in confirm_host check_out : ℕ → Scope

abbrev pub scope_eq : Scope → Scope → Bool
scope_eq (Scope.check_in a) (Scope.check_in b) = a == b
scope_eq (Scope.check_in a) (Scope.confirm_host b) = false
scope_eq (Scope.check_in a) (Scope.check_out b) = false
scope_eq (Scope.confirm_host a) (Scope.check_in b) = false
scope_eq (Scope.confirm_host a) (Scope.confirm_host b) = a == b
scope_eq (Scope.confirm_host a) (Scope.check_out b) = false
scope_eq (Scope.check_out a) (Scope.check_in b) = false
scope_eq (Scope.check_out a) (Scope.confirm_host b) = false
scope_eq (Scope.check_out a) (Scope.check_out b) = a == b

-- The `payload` of the three visit operations. It is stored as `json.dumps(payload)` and read
-- back by `json.loads`, which gives an equal dictionary for such texts, numbers and nulls.
pub data Payload : Type 0 where
  checked_in : ℕ → GeofenceStatus → SiteVisitStatus → Payload
  confirmed : SiteVisitStatus → ℕ → Payload
  checked_out : SiteVisitStatus → Option Datetime → Option ℤ → Payload

pub record IdempotencyRecord : Type 0 where
  pub scope : Scope
  pub client_key : Text
  pub created_at : Datetime
  pub response_body : Payload

pub record UsedQrJti : Type 0 where
  pub jti : Text
  pub mission_id : ℕ
  pub consumed_at : Datetime

pub record CoPresenceRow : Type 0 where
  pub event : CoPresenceEvent
  pub host_validation_mode : HostValidationMode

pub record PasswordResetToken : Type 0 where
  pub id : ℕ
  pub user_id : ℕ
  pub token_hash : Text
  pub expires_at : Datetime
  pub used : Bool
  pub created_at : Datetime

pub record AuditChainEntry : Type 0 where
  pub id : ℕ
  pub created_at : Datetime
  pub resource_type : Text
  pub resource_id : Option Text
  pub prev_hash : Option Text
  pub entry_hash : Text

pub record AuditLog : Type 0 where
  pub id : ℕ
  pub created_at : Datetime
  pub actor_user_id : Option ℕ
  pub action : Text
  pub resource_type : Text
  pub resource_id : Option Text
  pub payload_json : Option Text
  pub request_id : Option Text

pub record Db : Type 0 where
  pub establishments : List Establishment
  pub missions : List Mission
  pub site_visits : List SiteVisit
  pub presence_proofs : List PresenceProof
  pub copresence_events : List CoPresenceRow
  pub exception_requests : List ExceptionRequest
  pub mission_outcomes : List MissionOutcome
  pub idempotency : List IdempotencyRecord
  pub used_qr_jti : List UsedQrJti
  pub users : List User
  pub reset_tokens : List PasswordResetToken
  pub role_permissions : List RolePermission
  pub mobile_devices : List MobileDevice
  pub mobile_events : List MobileEvent
  pub audit_chain : List AuditChainEntry
  pub audit_logs : List AuditLog
