-- ===== src/Accounts.antt =====
-- Any sequence of requests on accounts: those of application/use_cases/auth/ and the changes of
-- api/v1/users.py, served one after the other, each in its own unit of work.
mod Writes
pub mod Unique
pub mod Registration
pub mod Login
pub mod Resets
use sigis_backend.Base.{ℕ, Option, List, [], ◌∷◌, Text}
use sigis_backend.Time.{Datetime}
use sigis_backend.Domain.Roles.{Role}
use sigis_backend.Store.{Db, transaction}
use sigis_backend.UseCases.Auth.{
  AuthEnv, AuthSettings, RegisterUserCommand, RegisterDraw, ResetDraw, register, login,
  request_reset, reset_password, change_password,
}
use sigis_backend.Api.Users.{UpdateUserBody, patch_user, patch_role}

-- A request, with the clock readings, the UUIDs, the tokens and the salts that serving it draws.
pub data Request : Type 0 where
  sign_up : RegisterUserCommand → RegisterDraw → Request
  sign_in : Text → Text → Datetime → Request
  forgot : Text → ResetDraw → Request
  reset : Text → Text → Datetime → Text → Request
  change : ℕ → Text → Text → Datetime → Text → Request
  patch : ℕ → UpdateUserBody → ℕ → Option Role → Datetime → Request
  set_role : ℕ → Role → Datetime → Request

module _ (env : AuthEnv) (settings : AuthSettings) where
  -- The database after the request: committed, or rolled back.
  unfoldable pub serve : Request → Db → Db
  serve (sign_up cmd draw) db = (transaction (register env cmd draw) db).1
  serve (sign_in email password now) db = (transaction (login env settings email password now) db).1
  serve (forgot email draw) db = (transaction (request_reset env settings email draw) db).1
  serve (reset token password now salt) db =
      (transaction (reset_password env token password now salt) db).1
  serve (change uid old new now salt) db =
      (transaction (change_password env uid old new now salt) db).1
  serve (patch uid body caller role now) db =
      (transaction (patch_user env.digits uid body caller role now) db).1
  serve (set_role uid role now) db = (transaction (patch_role uid role now) db).1

  unfoldable pub serve_all : List Request → Db → Db
  serve_all [] db = db
  serve_all (r ∷ rs) db = serve_all rs (serve r db)
