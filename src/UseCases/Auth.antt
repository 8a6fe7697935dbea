-- ===== src/UseCases/Auth.antt =====
-- application/use_cases/auth/: register_user.py, login.py, request_password_reset.py,
-- reset_password.py and change_password.py. Mails are sent when the transaction is over; they are
-- part of the answer.
use sigis_backend.Base.{ℕ, Bool, true, not, Option, none, some, is_some, Text}
use sigis_backend.Base.Uuid.{uuid_text}
use sigis_backend.Time.{Datetime, minutes, plus_delta}
use sigis_backend.Errors.{Result, ErrorClass, raised_as}
use sigis_backend.Domain.Roles.{Role}
use sigis_backend.Domain.Users.{User}
use sigis_backend.Domain.Phone.{Digits, phone_number}
use sigis_backend.Domain.AccessTokens.{role_text, ClaimValue, AccessClaims, AccessJwt}
use sigis_backend.UseCases.HostQr.{seconds}
use sigis_backend.Store.{Exec, pure, gets, lift, or_raise, raise_if, ◌>>=◌, ◌>>◌}
use sigis_backend.Store.Users.{
  get_user, get_by_email, get_by_phone, create_user, update_user, create_token, get_valid,
  mark_used,
}

-- `pwd_context` (passlib, with a salt that is drawn), `str.lower`, the SHA-256 digest of a text in
-- hexadecimal digits, the tables of digits, and the library `jwt`.
pub record AuthEnv : Type 0 where
  pub hash : Text → Text → Result Text
  pub verify : Text → Text → Result Bool
  pub lower : Text → Text
  pub digest : Text → Text
  pub digits : Digits
  pub jwt : AccessJwt

pub record AuthSettings : Type 0 where
  pub secret_key : Text
  pub jwt_algorithm : Text
  pub access_token_expire_minutes : ℕ
  pub reset_token_expire_minutes : ℕ

pub data Mail : Type 0 where
  welcome : Text → Text → Role → Mail
  password_reset : Text → Text → Text → Mail
  password_changed : Text → Text → Mail

pub record RegisterUserCommand : Type 0 where
  pub email : Text
  pub full_name : Text
  pub phone_number : Text
  pub password : Text
  pub role : Role

-- The clock, the UUID and the salt that a registration draws.
pub record RegisterDraw : Type 0 where
  pub now : Datetime
  pub user_id : ℕ
  pub salt : Text

unfoldable pub new_user : RegisterUserCommand → RegisterDraw → Text → Text → Text → User
new_user cmd draw lowered e164 hashed = record {
  id = draw.user_id;
  email = lowered;
  full_name = cmd.full_name;
  phone_number = e164;
  hashed_password = hashed;
  role = cmd.role;
  is_active = true;
  created_at = draw.now;
  updated_at = none;
}

-- `RegisterUser.execute`: the new id and the mail.
unfoldable pub register : AuthEnv → RegisterUserCommand → RegisterDraw → Exec (ℕ × Mail)
unfolding new_user
register env cmd draw = do
  e164 ← lift (phone_number env.digits cmd.phone_number)
  existing ← gets (get_by_email (env.lower cmd.email))
  raise_if (is_some existing) (raised_as ErrorClass.email_already_exists)
  existing_phone ← gets (get_by_phone e164)
  raise_if (is_some existing_phone) (raised_as ErrorClass.phone_already_exists)
  hashed ← lift (env.hash draw.salt cmd.password)
  let user = new_user cmd draw (env.lower cmd.email) e164 hashed
  create_user env.lower user
  pure (user.id, Mail.welcome user.email user.full_name user.role)

pub record LoginResult : Type 0 where
  pub access_token : Text
  pub user_id : ℕ
  pub role : Text

-- The payload that is signed.
unfoldable pub access_claims : AuthSettings → User → Datetime → AccessClaims
unfolding plus_delta seconds
access_claims settings user now = record {
  sub = some (uuid_text user.id);
  email = some user.email;
  role = some (ClaimValue.text (role_text user.role));
  roles = none;
  exp = seconds (plus_delta now (minutes settings.access_token_expire_minutes));
}

-- `LoginUser.execute`, with an e-mail and a password.
unfoldable pub login : AuthEnv → AuthSettings → Text → Text → Datetime → Exec LoginResult
unfolding access_claims
login env settings email password now = do
  found ← gets (get_by_email (env.lower email))
  user ← or_raise found (raised_as ErrorClass.invalid_credentials)
  verified ← lift (env.verify password user.hashed_password)
  raise_if (not verified) (raised_as ErrorClass.invalid_credentials)
  raise_if (not user.is_active) (raised_as ErrorClass.account_inactive)
  pure record {
    access_token =
        env.jwt.encode settings.secret_key settings.jwt_algorithm (access_claims settings user now);
    user_id = user.id;
    role = role_text user.role;
  }

-- The raw token, the UUID and the clock that a request for a reset draws.
pub record ResetDraw : Type 0 where
  pub now : Datetime
  pub raw_token : Text
  pub token_id : ℕ

abbrev pub send_reset : AuthEnv → AuthSettings → ResetDraw → Option User → Exec (Option Mail)
send_reset env settings draw none = pure none
send_reset env settings draw (some user) = do
  create_token draw.token_id user.id (env.digest draw.raw_token)
      (plus_delta draw.now (minutes settings.reset_token_expire_minutes)) draw.now
  pure (some (Mail.password_reset user.email user.full_name draw.raw_token))

-- `RequestPasswordReset.execute`: no answer, whether the account exists or not; the mail, if any.
unfoldable pub request_reset : AuthEnv → AuthSettings → Text → ResetDraw → Exec (Option Mail)
unfolding plus_delta
request_reset env settings email draw = do
  found ← gets (get_by_email (env.lower email))
  send_reset env settings draw found

-- `user.hashed_password = hashed`
abbrev pub rehashed : User → Text → User
rehashed user hashed = record user { hashed_password = hashed }

-- `ResetPassword.execute`, with a raw token, a password, the clock and a salt.
unfoldable pub reset_password : AuthEnv → Text → Text → Datetime → Text → Exec Mail
reset_password env token new_password now salt = do
  found ← gets (get_valid (env.digest token) now)
  row ← or_raise found (raised_as ErrorClass.token_expired_or_invalid)
  user ← get_user row.user_id
  hashed ← lift (env.hash salt new_password)
  update_user (rehashed user hashed) now
  mark_used (env.digest token)
  pure (Mail.password_changed user.email user.full_name)

-- `ChangePassword.execute`
unfoldable pub change_password : AuthEnv → ℕ → Text → Text → Datetime → Text → Exec Mail
change_password env uid current_password new_password now salt = do
  user ← get_user uid
  verified ← lift (env.verify current_password user.hashed_password)
  raise_if (not verified) (raised_as ErrorClass.invalid_credentials)
  hashed ← lift (env.hash salt new_password)
  update_user (rehashed user hashed) now
  pure (Mail.password_changed user.email user.full_name)
