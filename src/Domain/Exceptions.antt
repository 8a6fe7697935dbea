-- ===== src/Domain/Exceptions.antt =====
-- domain/exception_request/exception_request.py.
use sigis_backend.Base.{ℕ, Option, Text}
use sigis_backend.Time.{Datetime}

pub data ExceptionRequestStatus : Type 0 where
  new acknowledged resolved escalated : ExceptionRequestStatus

pub record ExceptionRequest : Type 0 where
  pub id : ℕ
  pub mission_id : ℕ
  pub author_user_id : ℕ
  pub created_at : Datetime
  pub status : ExceptionRequestStatus
  pub message : Text
  pub assigned_to_user_id : Option ℕ
  pub internal_comment : Option Text
  pub sla_due_at : Option Datetime
  pub attachment_url : Option Text
