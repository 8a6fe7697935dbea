-- ===== src/Api/Users.antt =====
-- api/v1/users.py: who may read and change an account, and the changes.
pub mod Rights
use sigis_backend.Base.{
  ℕ, Bool, true, false, ◌&&◌, ◌||◌, ◌==◌, not, Option, none, some, is_some, [], ◌∷◌, Text, text_eq,
  if◌then◌else◌,
}
use sigis_backend.Time.{Datetime}
use sigis_backend.Errors.{
  Result, ok, err, ErrorClass, Failure, raised_as, http_exception, domain_error_to_http,
}
use sigis_backend.Domain.Roles.{Role}
use sigis_backend.Domain.Users.{User}
use sigis_backend.Domain.Phone.{Digits, phone_number}
use sigis_backend.Store.{Exec, pure, gets, lift, raise_if, ◌>>=◌, ◌>>◌, Db}
use sigis_backend.Store.Users.{get_user, get_by_phone, update_user}

-- `user_role is not None and user_role in _ADMIN_ROLES`
abbrev pub is_admin : Option Role → Bool
is_admin (some Role.super_admin) = true
is_admin (some Role.national_admin) = true
is_admin _ = false

-- `except NotFound` and `except InvalidPhoneNumber`: an `HTTPException` with their status.
abbrev pub as_http : {A : Type 0} → Result A → Result A
as_http (ok a) = ok a
as_http (err e) = err (domain_error_to_http e)

abbrev pub caught : {A : Type 0} → Exec A → Exec A
caught m db = (as_http (m db).0, (m db).1)

-- `get_user`
unfoldable pub read_user : ℕ → ℕ → Option Role → Exec User
unfolding domain_error_to_http
read_user uid current_user user_role = do
  raise_if (not (current_user == uid) && not (is_admin user_role)) (http_exception 403)
  caught (get_user uid)

pub record UpdateUserBody : Type 0 where
  pub full_name : Option Text
  pub phone_number : Option Text
  pub is_active : Option Bool
  pub role : Option Role

abbrev pub or_keep : {A : Type 0} → Option A → A → A
or_keep none a = a
or_keep (some b) a = b

abbrev is_other : ℕ → Option User → Bool
is_other uid none = false
is_other uid (some u) = not (u.id == uid)

-- The number of the account after the change: the old one, or the new one if no other account
-- has it.
unfoldable pub new_phone : Digits → ℕ → Option Text → Text → Exec Text
unfolding domain_error_to_http
new_phone digits uid none current = pure current
new_phone digits uid (some raw) current = do
  e164 ← caught (lift (phone_number digits raw))
  existing ← gets (get_by_phone e164)
  raise_if (not (text_eq e164 current) && is_other uid existing) (http_exception 409)
  pure e164

unfoldable pub changed_user : UpdateUserBody → Text → User → User
changed_user body e164 user = record user {
  full_name = or_keep body.full_name user.full_name;
  phone_number = e164;
  is_active = or_keep body.is_active user.is_active;
  role = or_keep body.role user.role;
}

-- `update_user`: the account as it is stored afterwards.
unfoldable pub patch_user : Digits → ℕ → UpdateUserBody → ℕ → Option Role → Datetime → Exec User
unfolding new_phone changed_user domain_error_to_http
patch_user digits uid body current_user user_role now = do
  raise_if (not (current_user == uid) && not (is_admin user_role)) (http_exception 403)
  raise_if ((is_some body.is_active || is_some body.role) && not (is_admin user_role))
      (http_exception 403)
  user ← caught (get_user uid)
  e164 ← new_phone digits uid body.phone_number user.phone_number
  update_user (changed_user body e164 user) now
  get_user uid

-- `update_roles`
unfoldable pub patch_role : ℕ → Role → Datetime → Exec User
unfolding domain_error_to_http
patch_role uid role now = do
  user ← caught (get_user uid)
  update_user (record user { role = role }) now
  get_user uid
