-- ===== src/Tests/Exceptions.antt =====
-- A run of the changes of an exception request.
use sigis_backend.Base.{◌+◌, ◌*◌, ◌≡◌, refl, none, some, [], ◌∷◌, codes, length}
use sigis_backend.Base.Table.{get}
use sigis_backend.Time.{minutes, plus_delta}
use sigis_backend.Errors.{ok}
use sigis_backend.Domain.Exceptions.{ExceptionRequest, ExceptionRequestStatus}
use sigis_backend.Store.{Db, transaction}
use sigis_backend.Store.Reports.{get_exception}
use sigis_backend.Api.Exceptions.{PatchEnv, patch_exception, patch_exception_status}
use sigis_backend.Api.Exceptions.Patch.{acknowledge, deadline_set_once}
use sigis_backend.Tests.World.{at, empty}

abbrev signal : ExceptionRequest
signal = record {
  id = 60;
  mission_id = 20;
  author_user_id = 1;
  created_at = at 0;
  status = ExceptionRequestStatus.new;
  message = codes "closed";
  assigned_to_user_id = none;
  internal_comment = none;
  sla_due_at = none;
  attachment_url = none;
}

abbrev db : Db
db = record empty { exception_requests = signal ∷ [] }

abbrev env : PatchEnv
env = record {
  dumps = λ fields. codes "{}";
  now = at 5;
  audit_id = 70;
  audit_now = at 5;
  request_id = none;
}

abbrev later : PatchEnv
later = record env { now = at 90; audit_id = 71; audit_now = at 90 }

abbrev given : ExceptionRequest
given = record signal {
  status = ExceptionRequestStatus.acknowledged;
  sla_due_at = some (plus_delta (at 5) (minutes (72 * 60)));
}

deadline_set_once_example :
    let first = (transaction (patch_exception env 3 60 acknowledge) db).1 in
    let moved =
      (transaction (patch_exception_status 60 ExceptionRequestStatus.escalated) first).1 in
    let last = transaction (patch_exception later 2 60 acknowledge) moved in
    (get_exception 60 first ≡ some given)
    × (get_exception 60 moved ≡ some (record given { status = ExceptionRequestStatus.escalated }))
    × (last.0 ≡ ok given)
    × (get_exception 60 last.1 ≡ some given)
    × (length last.1.audit_logs ≡ length db.audit_logs + 2)
unfolding get_exception get
deadline_set_once_example =
    deadline_set_once env later 3 2 60 60 ExceptionRequestStatus.escalated signal db refl refl
