-- ===== src/Api/Access.antt =====
-- api/deps.py: the user, the role and the permission of a request, from its bearer token.
pub mod Grants
use sigis_backend.Base.{
  ℕ, Bool, true, false, ◌&&◌, ◌||◌, ◌==◌, not, Option, none, some, is_some, List, [], ◌∷◌, Text,
  if◌then◌else◌,
}
use sigis_backend.Base.Table.{first}
use sigis_backend.Time.{Datetime}
use sigis_backend.Errors.{Result, ok, err, Failure, http_exception}
use sigis_backend.Domain.Roles.{Role, role_index, Permission, permission_index}
use sigis_backend.Domain.AccessTokens.{role_of, ClaimValue, AccessClaims, Decoded, AccessJwt}
use sigis_backend.Store.{Exec, ◌>>=◌, ◌>>◌, pure, gets, lift, raise_if, Db}
use sigis_backend.Store.Roles.{get_effective_permissions, has}

-- The settings, the library `jwt`, and `UUID(text)`, which raises `ValueError` where it is `none`.
pub record AccessEnv : Type 0 where
  pub jwt : AccessJwt
  pub uuid_of : Text → Option ℕ
  pub secret_key : Text
  pub jwt_algorithm : Text
  pub is_dev : Bool

-- The two headers of a request, and the clock when its token is decoded.
pub record Caller : Type 0 where
  pub credentials : Option Text
  pub x_user_id : Option Text
  pub now : Datetime

abbrev pub unauthorized : Failure
unauthorized = http_exception 401

abbrev payload_or_raise : Decoded → Result AccessClaims
payload_or_raise Decoded.expired = err unauthorized
payload_or_raise Decoded.invalid = err unauthorized
payload_or_raise (Decoded.payload c) = ok c

-- `_decode_token`
unfoldable pub decode_token : AccessEnv → Datetime → Text → Result AccessClaims
decode_token env now token =
    payload_or_raise (env.jwt.decode env.secret_key env.jwt_algorithm now token)

abbrev uuid_or_raise : Option ℕ → Result ℕ
uuid_or_raise none = err Failure.value_error
uuid_or_raise (some n) = ok n

abbrev id_of_sub : AccessEnv → Option Text → Result ℕ
id_of_sub env none = err unauthorized
id_of_sub env (some []) = err unauthorized
id_of_sub env (some (c ∷ s)) = uuid_or_raise (env.uuid_of (c ∷ s))

-- `_extract_user_id`
unfoldable pub extract_user_id : AccessEnv → AccessClaims → Result ℕ
extract_user_id env claims = id_of_sub env claims.sub

abbrev pub role_of_text : Option ClaimValue → Option Role
role_of_text (some (ClaimValue.text s)) = role_of s
role_of_text _ = none

abbrev pub role_of_list : Option ClaimValue → Option Role
role_of_list (some (ClaimValue.list_of (some s))) = role_of s
role_of_list _ = none

abbrev pub or_legacy : Option Role → Option Role → Option Role
or_legacy none legacy = legacy
or_legacy (some r) legacy = some r

-- `_extract_role_from_payload`
unfoldable pub extract_role : AccessClaims → Option Role
unfolding role_of
extract_role claims = or_legacy (role_of_text claims.role) (role_of_list claims.roles)

-- `x_user_id and settings.is_dev`
abbrev pub bypass : AccessEnv → Option Text → Bool
bypass env none = false
bypass env (some []) = false
bypass env (some (c ∷ s)) = env.is_dev

abbrev id_of_header : AccessEnv → Option Text → Result ℕ
id_of_header env none = err unauthorized
id_of_header env (some s) =
    if bypass env (some s) then uuid_or_raise (env.uuid_of s) else err unauthorized

-- The token of a request, or what its headers give without one.
abbrev with_token : {A : Type 0} → AccessEnv → Caller → Result A → (AccessClaims → Exec A) → Exec A
with_token env caller without f = elim caller.credentials [
  | none ↦ lift without
  | some token ↦ lift (decode_token env caller.now token) >>= f
]

-- `CurrentUserDep`
unfoldable pub current_user : AccessEnv → Caller → Exec ℕ
unfolding decode_token extract_user_id
current_user env caller =
    with_token env caller (id_of_header env caller.x_user_id)
      (λ claims. lift (extract_user_id env claims))

-- `CurrentUserRoleDep`
unfoldable pub current_role : AccessEnv → Caller → Exec (Option Role)
unfolding decode_token extract_role
current_role env caller =
    with_token env caller (if bypass env caller.x_user_id then ok none else err unauthorized)
      (λ claims. pure (extract_role claims))

-- `[role] if role is not None else []`
abbrev pub roles_of : Option Role → List Role
roles_of none = []
roles_of (some r) = r ∷ []

-- `RequirePermissionDep(required)`; the permissions are read in a session of their own, with what
-- is committed.
unfoldable pub require_permission : AccessEnv → Permission → Caller → Exec (Unit {0})
unfolding decode_token extract_role
require_permission env required caller =
    with_token env caller (if bypass env caller.x_user_id then ok tt else err unauthorized)
      (λ claims. do
        effective ← gets (λ (db : Db).
            get_effective_permissions (roles_of (extract_role claims)) db.role_permissions)
        raise_if (not (has (permission_index required) effective)) (http_exception 403))

-- `ur is not None and ur in required`
abbrev pub is_one_of : List Role → Option Role → Bool
is_one_of required none = false
is_one_of required (some r) = is_some (first (λ q. role_index q == role_index r) required)

-- `RequireRolesDep(required)`, which has no development bypass.
unfoldable pub require_roles : AccessEnv → List Role → Caller → Exec (Unit {0})
unfolding decode_token extract_role
require_roles env required caller =
    with_token env caller (err unauthorized)
      (λ claims. raise_if (not (is_one_of required (extract_role claims))) (http_exception 403))
