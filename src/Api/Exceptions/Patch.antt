-- ===== src/Api/Exceptions/Patch.antt =====
-- The deadline of an exception request over several changes.
use sigis_backend.Base.{
  ℕ, ◌==◌, ◌+◌, ◌*◌, ◌++◌, ◌≡◌, refl, ap, ◌∙◌, Option, none, some, List, [], ◌∷◌, if◌then◌else◌,
  length, length-append, arith,
}
use sigis_backend.Base.Table.{get, put, get-put, get_own, key_of_get}
use sigis_backend.Time.{minutes, plus_delta}
use sigis_backend.Errors.{ok}
use sigis_backend.Domain.Exceptions.{ExceptionRequest, ExceptionRequestStatus}
use sigis_backend.Store.{Db, AuditLog, transaction}
use sigis_backend.Store.Reports.{get_exception, update_exception, update_status, add_audit_log}
use sigis_backend.Api.Exceptions.{
  PatchEnv, PatchExceptionBody, write_audit, patched_exception, patch_exception,
  patch_exception_status,
}

abbrev request_id : ExceptionRequest → ℕ
request_id x = x.id

abbrev replaced : ℕ → ℕ → ExceptionRequest → Db → Option ExceptionRequest
replaced xid j new db = if xid == j then some new else get_exception j db

one_more : (xs : List AuditLog) (x : AuditLog) → length (xs ++ x ∷ []) ≡ length xs + 1
one_more xs x = length-append xs (x ∷ [])

-- A row that takes the place of the row with its key.
put_at :
    (xid j : ℕ) (new : ExceptionRequest) (db : Db)
    → new.id ≡ xid
    → get request_id j (put request_id new db.exception_requests) ≡ replaced xid j new db
unfolding get_exception
put_at xid j new db key =
    get-put request_id j new db.exception_requests
    ∙ ap (λ n. if n == j then some new else get_exception j db) key

pub patch_at :
    (env : PatchEnv) (user xid j : ℕ) (body : PatchExceptionBody) (exc : ExceptionRequest) (db : Db)
    → get_exception xid db ≡ some exc
    → let new = patched_exception body env.now exc in
      let after = transaction (patch_exception env user xid body) db in
      (after.0 ≡ ok new)
      × (get_exception j after.1 ≡ replaced xid j new db)
      × (length after.1.audit_logs ≡ length db.audit_logs + 1)
unfolding transaction patch_exception update_exception get_exception patched_exception write_audit
    add_audit_log
patch_at env user xid j body exc db found =
    let own = get_own request_id xid db.exception_requests {v = exc} found in
    let key = key_of_get request_id xid db.exception_requests {v = exc} found in
    (
      rw found refl,
      rw (found, own) (put_at xid j (patched_exception body env.now exc) db key),
      rw (found, own) (one_more db.audit_logs _),
    )

pub status_at :
    (xid j : ℕ) (s : ExceptionRequestStatus) (exc : ExceptionRequest) (db : Db)
    → get_exception xid db ≡ some exc
    → let new = record exc { status = s } in
      let after = transaction (patch_exception_status xid s) db in
      (after.0 ≡ ok (xid, s))
      × (get_exception j after.1 ≡ replaced xid j new db)
      × (after.1.audit_logs ≡ db.audit_logs)
unfolding transaction patch_exception_status update_status get_exception
status_at xid j s exc db found =
    let key = key_of_get request_id xid db.exception_requests {v = exc} found in
    (
      rw found refl,
      rw (found, found) (put_at xid j (record exc { status = s }) db key),
      rw (found, found) refl,
    )

-- The body that sets the status acknowledged and nothing else.
abbrev pub acknowledge : PatchExceptionBody
acknowledge = record {
  status = some ExceptionRequestStatus.acknowledged;
  assigned_to_user_id = none;
  internal_comment = none;
  sla_due_at = none;
  attachment_url = none;
}

-- Two replacements with one key leave the second.
through :
    (xid j : ℕ) (a b : ExceptionRequest) (before after : Db)
    → get_exception j after ≡ replaced xid j a before
    → replaced xid j b after ≡ replaced xid j b before
through xid j a b before after h = ground (arith, h)

own_at : (xid : ℕ) (new : ExceptionRequest) (db : Db) → replaced xid xid new db ≡ some new
own_at xid new db = ground arith

-- Three changes, one after the other, of an exception request without a deadline: it is
-- acknowledged, moved to any status, and acknowledged again. The first sets the deadline 72 hours
-- after its clock reading, and the other two keep it, whatever the clock reads; the request ends
-- acknowledged with that deadline and all else as it was, no other request changes, and the two
-- acknowledgements, but not the move, leave a row in the audit log.
pub deadline_set_once :
    (env env' : PatchEnv) (user user' xid j : ℕ) (s : ExceptionRequestStatus)
    (exc : ExceptionRequest) (db : Db)
    → get_exception xid db ≡ some exc
    → exc.sla_due_at ≡ none
    → let due = plus_delta env.now (minutes (72 * 60)) in
      let given = record exc {
        status = ExceptionRequestStatus.acknowledged;
        sla_due_at = some due;
      } in
      let first = (transaction (patch_exception env user xid acknowledge) db).1 in
      let moved = (transaction (patch_exception_status xid s) first).1 in
      let last = transaction (patch_exception env' user' xid acknowledge) moved in
      (get_exception xid first ≡ some given)
      × (get_exception xid moved ≡ some (record given { status = s }))
      × (last.0 ≡ ok given)
      × (get_exception j last.1 ≡ replaced xid j given db)
      × (length last.1.audit_logs ≡ length db.audit_logs + 2)
unfolding patched_exception
deadline_set_once env env' user user' xid j s exc db found fresh =
    let due = plus_delta env.now (minutes (72 * 60)) in
    let given = record exc {
      status = ExceptionRequestStatus.acknowledged;
      sla_due_at = some due;
    } in
    let first = (transaction (patch_exception env user xid acknowledge) db).1 in
    let moved = (transaction (patch_exception_status xid s) first).1 in
    let is_given : patched_exception acknowledge env.now exc ≡ given = rw fresh refl in
    let one = patch_at env user xid xid acknowledge exc db found in
    let at_first : get_exception xid first ≡ some given =
      one.1 ∙ own_at xid (patched_exception acknowledge env.now exc) db ∙ ap some is_given in
    let two = status_at xid xid s given first at_first in
    let at_moved : get_exception xid moved ≡ some (record given { status = s }) =
      two.1 ∙ own_at xid (record given { status = s }) first in
    let three =
      patch_at env' user' xid j acknowledge (record given { status = s }) moved at_moved in
    (
      at_first,
      at_moved,
      three.0,
      three.1
          ∙ through xid j (record given { status = s }) given first moved
              (status_at xid j s given first at_first).1
          ∙ through xid j (patched_exception acknowledge env.now exc) given db first
              (patch_at env user xid j acknowledge exc db found).1,
      three.2 ∙ ap (λ (rows : List AuditLog). length rows + 1) two.2 ∙ omega (arith, one.2),
    )
