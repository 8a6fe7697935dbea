-- ===== src/Api/Exceptions.antt =====
-- The routes `update_exception_status` and `patch_exception_request` of
-- api/v1/exception_requests.py, and `write_audit` of common/audit.py.
pub mod Patch
use sigis_backend.Base.{ℕ, ◌*◌, Option, none, some, List, [], ◌∷◌, Text, codes, or_else}
use sigis_backend.Base.Uuid.{uuid_text}
use sigis_backend.Time.{Datetime, minutes, plus_delta}
use sigis_backend.Errors.{ErrorClass, raised_as}
use sigis_backend.Domain.Exceptions.{ExceptionRequest, ExceptionRequestStatus}
use sigis_backend.Store.{Exec, pure, gets, or_raise, ◌>>=◌, ◌>>◌, AuditLog}
use sigis_backend.Store.Reports.{get_exception, update_exception, update_status, add_audit_log}
use sigis_backend.Api.Missions.{or_old}

unfoldable pub exception_text : ExceptionRequestStatus → Text
exception_text ExceptionRequestStatus.new = codes "new"
exception_text ExceptionRequestStatus.acknowledged = codes "acknowledged"
exception_text ExceptionRequestStatus.resolved = codes "resolved"
exception_text ExceptionRequestStatus.escalated = codes "escalated"

-- `json.dumps` of a dictionary of texts, the clock readings and the UUID of the request, and the
-- id that the middleware gave it.
pub record PatchEnv : Type 0 where
  pub dumps : List (Text × Text) → Text
  pub now : Datetime
  pub audit_id : ℕ
  pub audit_now : Datetime
  pub request_id : Option Text

pub record PatchExceptionBody : Type 0 where
  pub status : Option ExceptionRequestStatus
  pub assigned_to_user_id : Option ℕ
  pub internal_comment : Option Text
  pub sla_due_at : Option Datetime
  pub attachment_url : Option Text

-- `write_audit`, as this route calls it.
unfoldable pub write_audit : PatchEnv → ℕ → Text → Text → ℕ → List (Text × Text) → Exec (Unit {0})
write_audit env actor action resource_type resource payload = add_audit_log record {
  id = env.audit_id;
  created_at = env.audit_now;
  actor_user_id = some actor;
  action = action;
  resource_type = resource_type;
  resource_id = some (uuid_text resource);
  payload_json = some (env.dumps payload);
  request_id = env.request_id;
}

-- The first acknowledgement of a request without a deadline gives it one.
abbrev pub deadline :
    Option Datetime → Option ExceptionRequestStatus → Datetime → Option Datetime → Option Datetime
deadline (some d) s now old = some d
deadline none none now old = old
deadline none (some s) now (some old) = some old
deadline none (some ExceptionRequestStatus.acknowledged) now none =
    some (plus_delta now (minutes (72 * 60)))
deadline none (some ExceptionRequestStatus.new) now none = none
deadline none (some ExceptionRequestStatus.resolved) now none = none
deadline none (some ExceptionRequestStatus.escalated) now none = none

unfoldable pub patched_exception :
    PatchExceptionBody → Datetime → ExceptionRequest → ExceptionRequest
patched_exception body now exc = record exc {
  status = or_old body.status exc.status;
  assigned_to_user_id = or_else body.assigned_to_user_id exc.assigned_to_user_id;
  internal_comment = or_else body.internal_comment exc.internal_comment;
  sla_due_at = deadline body.sla_due_at body.status now exc.sla_due_at;
  attachment_url = or_else body.attachment_url exc.attachment_url;
}

-- `patch_exception_request`
unfoldable pub patch_exception : PatchEnv → ℕ → ℕ → PatchExceptionBody → Exec ExceptionRequest
unfolding patched_exception write_audit exception_text
patch_exception env user xid body = do
  found ← gets (get_exception xid)
  exc ← or_raise found (raised_as ErrorClass.not_found)
  let new = patched_exception body env.now exc
  update_exception new
  write_audit env user (codes "exception.patch") (codes "exception_request") xid
      ((codes "status", exception_text new.status) ∷ [])
  pure new

-- `update_exception_status`, which answers with the id and the status.
unfoldable pub patch_exception_status :
    ℕ → ExceptionRequestStatus → Exec (ℕ × ExceptionRequestStatus)
patch_exception_status xid s = do
  found ← gets (get_exception xid)
  or_raise found (raised_as ErrorClass.not_found)
  update_status xid s
  pure (xid, s)
