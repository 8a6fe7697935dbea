-- ===== src/Errors.antt =====
-- domain/errors.py (and the one class of domain/identity/value_objects/phone_number.py), the
-- exceptions that leave an operation, and common/http_errors.py.
use sigis_backend.Base.{ℕ, ◌≡◌, refl, ◌⊎◌, inl, inr}

-- The subclasses of `DomainError`, and `DomainError` itself.
pub data ErrorClass : Type 0 where
  domain_error_base invariant_violation geofence_rejected copresence_rejected : ErrorClass
  mission_expired already_checked_out not_found conflict idempotency_replay forbidden : ErrorClass
  host_not_authorized mission_approval_required unauthorized email_already_exists : ErrorClass
  phone_already_exists invalid_credentials token_expired_or_invalid account_inactive : ErrorClass
  invalid_phone_number : ErrorClass

-- The strings of `code`: those of the classes, then those passed as `code=`.
pub data Code : Type 0 where
  domain_error invariant_violation outside_geofence copresence_rejected mission_expired : Code
  already_checked_out not_found conflict idempotency_replay forbidden : Code
  host_not_authorized mission_approval_required unauthorized email_already_exists : Code
  phone_already_exists invalid_credentials token_expired_or_invalid account_inactive : Code
  invalid_phone_number : Code
  copresence_timeout copresence_distance invalid_qr_token invalid_sms_code : Code
  sms_not_configured mission_expired_client_time mission_expired_with_grace : Code
  not_implemented : Code

-- The class attribute `code`.
unfoldable pub class_code : ErrorClass → Code
class_code ErrorClass.domain_error_base = Code.domain_error
class_code ErrorClass.invariant_violation = Code.invariant_violation
class_code ErrorClass.geofence_rejected = Code.outside_geofence
class_code ErrorClass.copresence_rejected = Code.copresence_rejected
class_code ErrorClass.mission_expired = Code.mission_expired
class_code ErrorClass.already_checked_out = Code.already_checked_out
class_code ErrorClass.not_found = Code.not_found
class_code ErrorClass.conflict = Code.conflict
class_code ErrorClass.idempotency_replay = Code.idempotency_replay
class_code ErrorClass.forbidden = Code.forbidden
class_code ErrorClass.host_not_authorized = Code.host_not_authorized
class_code ErrorClass.mission_approval_required = Code.mission_approval_required
class_code ErrorClass.unauthorized = Code.unauthorized
class_code ErrorClass.email_already_exists = Code.email_already_exists
class_code ErrorClass.phone_already_exists = Code.phone_already_exists
class_code ErrorClass.invalid_credentials = Code.invalid_credentials
class_code ErrorClass.token_expired_or_invalid = Code.token_expired_or_invalid
class_code ErrorClass.account_inactive = Code.account_inactive
class_code ErrorClass.invalid_phone_number = Code.invalid_phone_number

-- What ends an operation early: a `DomainError` with its class and code, an `assert`, a
-- `ValueError`, SQLAlchemy's `MultipleResultsFound` or `IntegrityError`, an `OverflowError`
-- of `datetime`, or an `HTTPException` with its status.
pub data Failure : Type 0 where
  raised : ErrorClass → Code → Failure
  assertion_error value_error multiple_results_found integrity_error overflow_error : Failure
  http_exception : ℕ → Failure

-- `raise C("...")`, with the code of the class.
abbrev pub raised_as : ErrorClass → Failure
raised_as c = raised c (class_code c)

pub data Result (A : Type 0) : Type 0 where
  ok : A → Result A
  err : Failure → Result A

pub Result-cases :
    {A : Type 0} (r : Result A) → ((a : A) × (r ≡ ok a)) ⊎ ((e : Failure) × (r ≡ err e))
Result-cases (ok a) = inl (a, refl)
Result-cases (err e) = inr (e, refl)

-- `_CODE_TO_STATUS.get(code, 400)`
unfoldable pub code_to_status : Code → ℕ
code_to_status Code.not_found = 404
code_to_status Code.conflict = 409
code_to_status Code.idempotency_replay = 409
code_to_status Code.forbidden = 403
code_to_status Code.unauthorized = 401
code_to_status Code.invalid_credentials = 401
code_to_status Code.account_inactive = 401
code_to_status Code.token_expired_or_invalid = 400
code_to_status Code.email_already_exists = 409
code_to_status Code.phone_already_exists = 409
code_to_status Code.invalid_phone_number = 422
code_to_status Code.outside_geofence = 400
code_to_status Code.copresence_rejected = 400
code_to_status Code.mission_expired = 400
code_to_status Code.already_checked_out = 400
code_to_status Code.invariant_violation = 422
code_to_status Code.not_implemented = 501
code_to_status Code.host_not_authorized = 403
code_to_status Code.mission_approval_required = 409
code_to_status _ = 400

-- The failure that the presentation layer sends: an `HTTPException`, or the exception itself if
-- it is no `DomainError`.
unfoldable pub domain_error_to_http : Failure → Failure
unfolding code_to_status
domain_error_to_http (raised c k) = http_exception (code_to_status k)
domain_error_to_http other = other
