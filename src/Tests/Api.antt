-- ===== src/Tests/Api.antt =====
-- Requests of the presentation layer.
use sigis_backend.Base.{
  ℕ, ◌≡◌, ◌⊎◌, refl, true, false, ◌==◌, Option, none, some, List, [], ◌∷◌, ◌++◌, Text, codes,
  text_eq, leb, if◌then◌else◌, arith,
}
use sigis_backend.Base.Int.{pos}
use sigis_backend.Base.Uuid.{uuid_text, hex_digits, hex_digit}
use sigis_backend.Base.Table.{first, get, put}
use sigis_backend.Time.{instant, minutes, plus_delta}
use sigis_backend.Errors.{ok, err, http_exception}
use sigis_backend.Domain.Roles.{Role, visit_checkin}
use sigis_backend.Domain.Users.{User}
use sigis_backend.Domain.AccessTokens.{role_text}
use sigis_backend.Store.{Db}
use sigis_backend.Store.Roles.{has_row}
use sigis_backend.Store.Users.{
  user_id, get_by_email, get_user, update_user, write_user, updated_user,
}
use sigis_backend.UseCases.HostQr.{seconds}
use sigis_backend.UseCases.Auth.{AuthEnv, LoginResult, login, access_claims}
use sigis_backend.Api.Access.{AccessEnv, Caller, current_user, require_permission}
use sigis_backend.Api.Access.Grants.{access_of, bearer, login_then_permission}
use sigis_backend.Api.Users.{UpdateUserBody, is_admin, patch_user, new_phone, changed_user}
use sigis_backend.Api.Users.Rights.{patch_user-Rights}
use sigis_backend.Api.RateLimit.{Hit, answers}
use sigis_backend.Api.RateLimit.Window.{log_answers, rate_limit_refines}
use sigis_backend.Api.Telemetry.{TelemetryEvent, StatsOps}
use sigis_backend.Api.Mobile.{MobileEventIn}
use sigis_backend.Api.Mobile.Chain.{Batch}
use sigis_backend.Tests.World.{at, empty, user}
use sigis_backend.Tests.Accounts.{ascii, auth_env, auth_settings}
use sigis_backend.Tests.Tokens.{spelling, spelling_trip}

-- Inspectors may check in.
abbrev with_rights : Db
with_rights = record empty { role_permissions = record { role = 3; permission = 10 } ∷ [] }

abbrev spelling_env : AuthEnv
spelling_env = record auth_env { jwt = spelling; verify = λ p h. ok true }

abbrev inspector_answer : LoginResult
inspector_answer = record {
  access_token = spelling.encode [] [] (access_claims auth_settings (user 1 Role.inspector) (at 0));
  user_id = 1;
  role = codes "INSPECTOR";
}

abbrev uuid_of : Text → Option ℕ
uuid_of t = if text_eq t (uuid_text 1) then some 1 else none

login_then_permission_example :
    let access = access_of spelling_env auth_settings uuid_of false in
    let caller = bearer inspector_answer.access_token none (at 30) in
    (current_user access caller with_rights ≡ (ok 1, with_rights))
    × (require_permission access visit_checkin caller with_rights ≡ (
      if has_row Role.inspector visit_checkin with_rights.role_permissions
          then ok tt
          else err (http_exception 403),
      with_rights,
    ))
unfolding login get_by_email first access_claims role_text seconds plus_delta instant uuid_text
    hex_digits hex_digit
login_then_permission_example =
    login_then_permission spelling_env auth_settings uuid_of false (1 ∷ codes "@sigis.cm")
      (codes "pw") (at 0) (at 30) empty with_rights inspector_answer Role.inspector visit_checkin
      none refl refl (spelling_trip (at 30)) refl (ground arith)

abbrev production : AccessEnv
production = access_of spelling_env auth_settings uuid_of false

abbrev inspector_caller : Caller
inspector_caller = bearer inspector_answer.access_token none (at 30)

abbrev rename : UpdateUserBody
rename = record {
  full_name = some (codes "New");
  phone_number = none;
  is_active = none;
  role = none;
}

abbrev renamed : User
renamed = record (user 1 Role.inspector) { full_name = codes "New"; updated_at = some (at 9) }

patch_user-Rights_example :
    ((is_admin (some Role.inspector) ≡ true)
      ⊎ ((renamed.id ≡ 1) × (renamed.role ≡ Role.inspector) × (renamed.is_active ≡ true)))
    × (renamed.id ≡ 1)
    × (renamed.email ≡ 1 ∷ codes "@sigis.cm")
    × (renamed.hashed_password ≡ codes "#" ++ 1 ∷ [])
    × ((j : ℕ)
        → (1 == j) ≡ false
        → get user_id j (patch_user ascii 1 rename 1 (some Role.inspector) (at 9) empty).1.users
          ≡ get user_id j empty.users)
unfolding patch_user get_user new_phone changed_user update_user write_user updated_user first get
    put
patch_user-Rights_example =
    patch_user-Rights ascii 1 rename 1 (some Role.inspector) (at 9) empty (user 1 Role.inspector)
      renamed refl refl

abbrev hit : ℕ → Hit
hit n = record { key_prefix = codes "login"; host = some (codes "10.0.0.1"); now = n }

rate_limit_refines_example :
    answers (pos 1) (hit 5 ∷ hit 9 ∷ hit (minutes 2) ∷ []) (λ key. [])
    ≡ log_answers (pos 1) (hit 5 ∷ hit 9 ∷ hit (minutes 2) ∷ []) (λ key. [])
rate_limit_refines_example =
    rate_limit_refines (pos 1) (hit 5 ∷ hit 9 ∷ hit (minutes 2) ∷ []) 0
      (ground arith, (ground arith, (ground arith, tt)))

abbrev page_view : Text → TelemetryEvent
page_view id = record {
  id = id;
  ts = at 0;
  kind = codes "nav";
  method = [];
  path = codes "/";
  status_code = none;
  duration_ms = none;
  user_id = none;
  request_id = none;
  client_ip = [];
  user_agent = [];
  action = [];
  resource = [];
  meta = codes "{}";
}

abbrev views : List TelemetryEvent
views = page_view (codes "a") ∷ page_view (codes "b") ∷ page_view (codes "c") ∷ []

abbrev zeros : StatsOps
zeros = record {
  percent = λ a b. 0;
  mean = λ xs. 0;
  round2 = λ x. x;
  int95 = λ n. n;
  le = leb;
  nought = 0;
}

abbrev offline : ℕ → Text → MobileEventIn
offline n key = record {
  event_id = n;
  type_name = codes "CHECK_IN";
  mission_id = 20;
  site_visit_id = none;
  actor_user_id = 1;
  device_id = 70;
  device_public_key = codes "key";
  client_request_id = key;
  captured_at_client = at 1;
  gps = none;
  selfie = none;
  prev_event_hash = none;
  event_hash = key;
  signature_ed25519 = codes "sig";
  raw_json = codes "{}";
}

abbrev batch : Batch auth_env.digest
batch = record {
  user = 1;
  now = at 2;
  events = (80, offline 60 (codes "k1")) ∷ (81, offline 61 (codes "k2")) ∷ [];
}
