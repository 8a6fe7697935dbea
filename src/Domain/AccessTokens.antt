-- ===== src/Domain/AccessTokens.antt =====
-- The payload of an access token, as `LoginUser` writes it and `api/deps.py` reads it.
use sigis_backend.Base.{ℕ, Option, none, some, Text, codes, text_eq, if◌then◌else◌}
use sigis_backend.Time.{Datetime}
use sigis_backend.Domain.Roles.{Role}

-- `role.value`
unfoldable pub role_text : Role → Text
role_text Role.super_admin = codes "SUPER_ADMIN"
role_text Role.national_admin = codes "NATIONAL_ADMIN"
role_text Role.regional_supervisor = codes "REGIONAL_SUPERVISOR"
role_text Role.inspector = codes "INSPECTOR"
role_text Role.host = codes "HOST"

-- `Role(text)`, `none` where it raises `ValueError`.
unfoldable pub role_of : Text → Option Role
unfolding role_text
role_of s =
    if text_eq s (role_text Role.super_admin)
    then some Role.super_admin
    else if text_eq s (role_text Role.national_admin)
    then some Role.national_admin
    else if text_eq s (role_text Role.regional_supervisor)
    then some Role.regional_supervisor
    else if text_eq s (role_text Role.inspector)
    then some Role.inspector
    else if text_eq s (role_text Role.host)
    then some Role.host
    else none

-- A JSON value, as far as it is looked at: a text, a list by its first item if that is a text, or
-- another value.
pub data ClaimValue : Type 0 where
  text : Text → ClaimValue
  list_of : Option Text → ClaimValue
  other : ClaimValue

-- The claims that are read; `none` where one is missing. The time is in whole seconds.
pub record AccessClaims : Type 0 where
  pub sub : Option Text
  pub email : Option Text
  pub role : Option ClaimValue
  pub roles : Option ClaimValue
  pub exp : ℕ

-- `jwt.decode`: the payload, `ExpiredSignatureError`, or another `PyJWTError`.
pub data Decoded : Type 0 where
  expired invalid : Decoded
  payload : AccessClaims → Decoded

-- `jwt.encode` and `jwt.decode` with a key and an algorithm, on these payloads.
pub record AccessJwt : Type 0 where
  pub encode : Text → Text → AccessClaims → Text
  pub decode : Text → Text → Datetime → Text → Decoded
