-- ===== src/Accounts/Writes.antt =====
-- A property that each write of an account or a token keeps is kept by any requests.
use sigis_backend.Base.{ℕ, Option, none, some, List, [], ◌∷◌, Text, arith}
use sigis_backend.Time.{Datetime}
use sigis_backend.Domain.Roles.{Role}
use sigis_backend.Domain.Users.{User}
use sigis_backend.Store.{Db}
use sigis_backend.Store.Keeps.{Keeps, transaction-Keeps}
use sigis_backend.Store.Users.{get_user, create_user, update_user, create_token, mark_used}
use sigis_backend.UseCases.Auth.{
  AuthEnv, AuthSettings, RegisterUserCommand, RegisterDraw, ResetDraw, send_reset, register, login,
  request_reset, reset_password, change_password, new_user, rehashed,
}
use sigis_backend.Api.Users.{UpdateUserBody, patch_user, patch_role, changed_user, new_phone}
use sigis_backend.Accounts.{Request, serve, serve_all}

pub record IsKept (env : AuthEnv) (P : Db → Type 0) : Type 0 where
  pub created : (u : User) → Keeps P (create_user env.lower u)
  pub updated : (u : User) (now : Datetime) → Keeps P (update_user u now)
  pub issued :
      (tid uid : ℕ) (hash : Text) (expires now : Datetime)
      → Keeps P (create_token tid uid hash expires now)
  pub spent : (hash : Text) → Keeps P (mark_used hash)

module _ (env : AuthEnv) (settings : AuthSettings) (P : Db → Type 0) (k : IsKept env P) where
  register-Keeps :
      (cmd : RegisterUserCommand) (draw : RegisterDraw) → Keeps P (register env cmd draw)
  unfolding register
  register-Keeps cmd draw db s = grind (
    arith,
    s,
    λ (e164 hashed : Text). k.created (new_user cmd draw (env.lower cmd.email) e164 hashed) db s,
  )

  login-Keeps :
      (email password : Text) (now : Datetime) → Keeps P (login env settings email password now)
  unfolding login
  login-Keeps email password now db s = grind (arith, s)

  send-Keeps : (draw : ResetDraw) (o : Option User) → Keeps P (send_reset env settings draw o)
  send-Keeps draw none db s = s
  send-Keeps draw (some u) db s =
      grind (arith, k.issued draw.token_id u.id (env.digest draw.raw_token) _ draw.now db s)

  forgot-Keeps : (email : Text) (draw : ResetDraw) → Keeps P (request_reset env settings email draw)
  unfolding request_reset
  forgot-Keeps email draw db s = send-Keeps draw _ db s

  change-Keeps :
      (uid : ℕ) (old new : Text) (now : Datetime) (salt : Text)
      → Keeps P (change_password env uid old new now salt)
  unfolding change_password get_user
  change-Keeps uid old new now salt db s =
      grind (arith, s, λ (u : User) (hashed : Text). k.updated (rehashed u hashed) now db s)

  reset-Keeps :
      (token new : Text) (now : Datetime) (salt : Text)
      → Keeps P (reset_password env token new now salt)
  unfolding reset_password get_user
  reset-Keeps token new now salt db s = grind (
    arith,
    s,
    λ (u : User) (hashed : Text). k.updated (rehashed u hashed) now db s,
    λ (u : User) (hashed : Text).
        k.spent (env.digest token) (update_user (rehashed u hashed) now db).1
          (k.updated (rehashed u hashed) now db s),
  )

  patch-Keeps :
      (uid : ℕ) (body : UpdateUserBody) (caller : ℕ) (role : Option Role) (now : Datetime)
      → Keeps P (patch_user env.digits uid body caller role now)
  unfolding patch_user get_user new_phone
  patch-Keeps uid body caller role now db s =
      grind (arith, s, λ (u : User) (e164 : Text). k.updated (changed_user body e164 u) now db s)

  set_role-Keeps : (uid : ℕ) (role : Role) (now : Datetime) → Keeps P (patch_role uid role now)
  unfolding patch_role get_user
  set_role-Keeps uid role now db s =
      grind (arith, s, λ (u : User). k.updated (record u { role = role }) now db s)

  serve-Keeps : (r : Request) (db : Db) → P db → P (serve env settings r db)
  unfolding serve
  serve-Keeps (Request.sign_up cmd draw) db s =
      transaction-Keeps P (register env cmd draw) (register-Keeps cmd draw) db s
  serve-Keeps (Request.sign_in email password now) db s =
      transaction-Keeps P (login env settings email password now) (login-Keeps email password now)
        db s
  serve-Keeps (Request.forgot email draw) db s =
      transaction-Keeps P (request_reset env settings email draw) (forgot-Keeps email draw) db s
  serve-Keeps (Request.reset token new now salt) db s =
      transaction-Keeps P (reset_password env token new now salt) (reset-Keeps token new now salt)
        db s
  serve-Keeps (Request.change uid old new now salt) db s =
      transaction-Keeps P (change_password env uid old new now salt)
        (change-Keeps uid old new now salt) db s
  serve-Keeps (Request.patch uid body caller role now) db s =
      transaction-Keeps P (patch_user env.digits uid body caller role now)
        (patch-Keeps uid body caller role now) db s
  serve-Keeps (Request.set_role uid role now) db s =
      transaction-Keeps P (patch_role uid role now) (set_role-Keeps uid role now) db s

  pub serve_all-Keeps : (rs : List Request) (db : Db) → P db → P (serve_all env settings rs db)
  unfolding serve_all
  serve_all-Keeps [] db s = s
  serve_all-Keeps (r ∷ rs) db s = serve_all-Keeps rs (serve env settings r db) (serve-Keeps r db s)
