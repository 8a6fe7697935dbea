-- ===== src/Domain/Users.antt =====
-- domain/identity/user.py.
use sigis_backend.Base.{ℕ, Bool, Option, Text}
use sigis_backend.Time.{Datetime}
use sigis_backend.Domain.Roles.{Role}

pub record User : Type 0 where
  pub id : ℕ
  pub email : Text
  pub full_name : Text
  pub phone_number : Text
  pub hashed_password : Text
  pub role : Role
  pub is_active : Bool
  pub created_at : Datetime
  pub updated_at : Option Datetime
