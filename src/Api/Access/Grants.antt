-- ===== src/Api/Access/Grants.antt =====
-- Who is let through, and with which permission.
use sigis_backend.Base.{
  ℕ, ◌<◌, Bool, false, ◌≡◌, inl, inr, refl, ap, sym, ◌∙◌, Option, none, some, Option-cases, [], ◌∷◌,
  Text, if◌then◌else◌, arith,
}
use sigis_backend.Base.Uuid.{uuid_text, hex_digits}
use sigis_backend.Time.{Datetime, minutes, plus_delta}
use sigis_backend.Errors.{ok, err, http_exception}
use sigis_backend.Domain.Roles.{Role, Permission, permission_index}
use sigis_backend.Domain.Users.{User}
use sigis_backend.Domain.AccessTokens.{role_text, role_of, AccessClaims, Decoded}
use sigis_backend.Store.{Db}
use sigis_backend.Store.Roles.{has_row, has, get_effective_permissions}
use sigis_backend.Store.Roles.Laws.{effective_lem}
use sigis_backend.UseCases.HostQr.{seconds}
use sigis_backend.UseCases.Auth.{AuthEnv, AuthSettings, LoginResult, access_claims, login}
use sigis_backend.Accounts.Login.{logged_in}
use sigis_backend.Store.Users.{get_by_email}
use sigis_backend.Api.Access.{
  AccessEnv, Caller, decode_token, extract_role, extract_user_id, current_user, require_permission,
  roles_of,
}

role_of-text : (r : Role) → role_of (role_text r) ≡ some r
unfolding role_of role_text
role_of-text Role.super_admin = refl
role_of-text Role.national_admin = refl
role_of-text Role.regional_supervisor = refl
role_of-text Role.inspector = refl
role_of-text Role.host = refl

effective_held :
    (o : Option Role) (p : Permission) (db : Db)
    → has (permission_index p) (get_effective_permissions (roles_of o) db.role_permissions)
      ≡ (elim o [ none ↦ false | some r ↦ has_row r p db.role_permissions ])
unfolding get_effective_permissions
effective_held none p db = refl
effective_held (some r) p db = ground (arith, effective_lem r [] p db.role_permissions)

role_of_text : (r r' : Role) → role_text r ≡ role_text r' → some r ≡ some r'
role_of_text r r' e = sym (role_of-text r) ∙ ap role_of e ∙ role_of-text r'

abbrev Decodes : AccessEnv → Caller → Text → AccessClaims → Type 0
Decodes env caller token claims =
    env.jwt.decode env.secret_key env.jwt_algorithm caller.now token ≡ Decoded.payload claims

-- With a token that decodes.
with_claims :
    (env : AccessEnv) (p : Permission) (caller : Caller) (db : Db) (token : Text)
    (claims : AccessClaims)
    → caller.credentials ≡ some token
    → Decodes env caller token claims
    → require_permission env p caller db ≡ (
      if elim (extract_role claims) [ none ↦ false | some r ↦ has_row r p db.role_permissions ]
          then ok tt
          else err (http_exception 403),
      db,
    )
unfolding require_permission decode_token
with_claims env p caller db token claims shown e =
    rw (shown, e, effective_held (extract_role claims) p db) (ground arith)

-- The account of a login.
account :
    (env : AuthEnv) (settings : AuthSettings) (email password : Text) (now : Datetime) (db : Db)
    (res : LoginResult)
    → (login env settings email password now db).0 ≡ ok res
    → (u : User) × (res ≡ logged_in env settings u now)
unfolding login
account env settings email password now db res h =
    elim (Option-cases (get_by_email (env.lower email) db)) [
      | inl missing ↦ absurd (ground (arith, h, missing))
      | inr (u, found) ↦ (u, ground (arith, h, found))
    ]

-- What the token of an account says.
access_claims-Says :
    (settings : AuthSettings) (u : User) (now : Datetime)
    → extract_role (access_claims settings u now) ≡ some u.role
unfolding extract_role access_claims
access_claims-Says settings u now = rw (role_of-text u.role) refl

cons_text :
    (c : ℕ) (s : Text) (n : ℕ) (env : AccessEnv) (claims : AccessClaims)
    → claims.sub ≡ some (c ∷ s)
    → env.uuid_of (c ∷ s) ≡ some n
    → extract_user_id env claims ≡ ok n
unfolding extract_user_id
cons_text c s n env claims e i = rw (e, i) refl

-- `str(UUID)` is not empty.
uuid_text-Cons : (n : ℕ) → (c : ℕ) × (s : Text) × (uuid_text n ≡ c ∷ s)
unfolding uuid_text hex_digits
uuid_text-Cons n = (_, _, refl)

access_claims-Names :
    (env : AccessEnv) (settings : AuthSettings) (u : User) (now : Datetime)
    → env.uuid_of (uuid_text u.id) ≡ some u.id
    → extract_user_id env (access_claims settings u now) ≡ ok u.id
unfolding access_claims
access_claims-Names env settings u now i =
    let (c, s, e) = uuid_text-Cons u.id in
    cons_text c s u.id env (access_claims settings u now) (ap some e) (rw⁻¹ e i)

access_claims-Exp :
    (settings : AuthSettings) (u : User) (now : Datetime)
    → (access_claims settings u now).exp
      ≡ seconds (plus_delta now (minutes settings.access_token_expire_minutes))
unfolding access_claims
access_claims-Exp settings u now = refl

-- The environment of the checks, with the settings and the library of the logins.
abbrev pub access_of : AuthEnv → AuthSettings → (Text → Option ℕ) → Bool → AccessEnv
access_of env settings uuid_of is_dev = record {
  jwt = env.jwt;
  uuid_of = uuid_of;
  secret_key = settings.secret_key;
  jwt_algorithm = settings.jwt_algorithm;
  is_dev = is_dev;
}

-- A request with a token.
abbrev pub bearer : Text → Option Text → Datetime → Caller
bearer token header now = record { credentials = some token; x_user_id = header; now = now }

-- With a token that names a user.
with_subject :
    (env : AccessEnv) (caller : Caller) (db : Db) (token : Text) (claims : AccessClaims) (n : ℕ)
    → caller.credentials ≡ some token
    → Decodes env caller token claims
    → extract_user_id env claims ≡ ok n
    → current_user env caller db ≡ (ok n, db)
unfolding current_user decode_token
with_subject env caller db token claims n shown e i = rw (shown, e, i) refl

-- With a token that names a role.
with_role :
    (env : AccessEnv) (p : Permission) (caller : Caller) (db : Db) (token : Text)
    (claims : AccessClaims) (r : Role)
    → caller.credentials ≡ some token
    → Decodes env caller token claims
    → extract_role claims ≡ some r
    → require_permission env p caller db
      ≡ (if has_row r p db.role_permissions then ok tt else err (http_exception 403), db)
with_role env p caller db token claims r shown e i =
    with_claims env p caller db token claims shown e ∙ rw i refl

module _ (env : AuthEnv) (settings : AuthSettings) (uuid_of : Text → Option ℕ) (is_dev : Bool) where
  -- A token from a login, before it expires and where the library decodes what it has encoded, is
  -- the user's, and gives exactly the permissions that the database then holds for the user's
  -- role.
  pub login_then_permission :
      (email password : Text) (now later : Datetime) (db db' : Db) (res : LoginResult) (r : Role)
      (p : Permission) (header : Option Text)
      → (login env settings email password now db).0 ≡ ok res
      → res.role ≡ role_text r
      → ((c : AccessClaims)
          → seconds later < c.exp
          → env.jwt.decode settings.secret_key settings.jwt_algorithm later
              (env.jwt.encode settings.secret_key settings.jwt_algorithm c)
            ≡ Decoded.payload c)
      → uuid_of (uuid_text res.user_id) ≡ some res.user_id
      → seconds later < seconds (plus_delta now (minutes settings.access_token_expire_minutes))
      → let access = access_of env settings uuid_of is_dev in
        let caller = bearer res.access_token header later in
        (current_user access caller db' ≡ (ok res.user_id, db'))
        × (require_permission access p caller db'
            ≡ (if has_row r p db'.role_permissions then ok tt else err (http_exception 403), db'))
  login_then_permission email password now later db db' res r p header h role trip ids live =
      let access = access_of env settings uuid_of is_dev in
      let caller = bearer res.access_token header later in
      let (u, is_u) = account env settings email password now db res h in
      let claims = access_claims settings u now in
      let token = ap (λ (q : LoginResult). q.access_token) is_u in
      let decodes : Decodes access caller res.access_token claims =
        rw token (trip claims (rw (access_claims-Exp settings u now) live)) in
      let same_id = ap (λ (q : LoginResult). q.user_id) is_u in
      let same_role = role_of_text r u.role (sym role ∙ ap (λ (q : LoginResult). q.role) is_u) in
      (
        rw same_id (
            with_subject access caller db' res.access_token claims u.id refl decodes
              (access_claims-Names access settings u now (rw⁻¹ same_id ids))),
        with_role access p caller db' res.access_token claims r refl decodes
            (access_claims-Says settings u now ∙ sym same_role),
      )
