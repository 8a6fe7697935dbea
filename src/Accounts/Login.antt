-- ===== src/Accounts/Login.antt =====
-- Who has registered, or has reset a password, can log in.
use sigis_backend.Base.{
  ℕ, Bool, if◌then◌else◌, ◌≡◌, refl, true, none, some, [], ◌∷◌, ◌++◌, Text, text_eq_iff, arith,
}
use sigis_backend.Base.Table.{first, get, put, first-append, key_of_get, get_own}
use sigis_backend.Base.Table.Texts.{first-put}
use sigis_backend.Time.{Datetime, minutes, plus_delta}
use sigis_backend.Base.Uuid.{uuid_text}
use sigis_backend.UseCases.HostQr.{seconds}
use sigis_backend.Errors.{ok, err, raised_as, ErrorClass}
use sigis_backend.Domain.Users.{User}
use sigis_backend.Domain.AccessTokens.{role_text, ClaimValue}
use sigis_backend.Domain.Phone.{phone_number}
use sigis_backend.Store.{Db, PasswordResetToken, transaction}
use sigis_backend.Store.Users.{
  user_id, get_by_email, get_user, get_valid, has_email, create_user, update_user, write_user,
  updated_user, mark_used,
}
use sigis_backend.UseCases.Auth.{
  AuthEnv, AuthSettings, Mail, LoginResult, access_claims, new_user, rehashed, RegisterUserCommand,
  RegisterDraw, register, login, reset_password,
}
use sigis_backend.Accounts.Unique.{IsKeyed, email_of}

module _ (env : AuthEnv) (settings : AuthSettings) where
  -- The answer of a login to the account `u`.
  abbrev pub logged_in : User → Datetime → LoginResult
  logged_in u now = record {
    access_token =
        env.jwt.encode settings.secret_key settings.jwt_algorithm (access_claims settings u now);
    user_id = u.id;
    role = role_text u.role;
  }

  logs_in :
      (u : User) (email password : Text) (now : Datetime) (db : Db)
      → get_by_email (env.lower email) db ≡ some u
      → u.is_active ≡ true
      → env.verify password u.hashed_password ≡ ok true
      → login env settings email password now db ≡ (ok (logged_in u now), db)
  unfolding login
  logs_in u email password now db f a v = rw (f, v, a) refl

  found_last :
      (u : User) (email : Text) (db : Db)
      → get_by_email email db ≡ none
      → u.email ≡ email
      → get_by_email email (record db { users = db.users ++ u ∷ [] }) ≡ some u
  unfolding get_by_email first
  found_last u email db f e =
      ground (arith, first-append (has_email email) db.users (u ∷ []), text_eq_iff u.email email)

  -- The database after a registration.
  registered :
      (cmd : RegisterUserCommand) (draw : RegisterDraw) (db : Db) (uid : ℕ) (m : Mail)
      (e164 hashed : Text)
      → (register env cmd draw db).0 ≡ ok (uid, m)
      → phone_number env.digits cmd.phone_number ≡ ok e164
      → env.hash draw.salt cmd.password ≡ ok hashed
      → env.lower (env.lower cmd.email) ≡ env.lower cmd.email
      → (get_by_email (env.lower cmd.email) db ≡ none)
        × ((register env cmd draw db).1 ≡ record db {
          users = db.users ++ new_user cmd draw (env.lower cmd.email) e164 hashed ∷ [];
        })
  unfolding register create_user
  registered cmd draw db uid m e164 hashed h p q i = (ground (arith, h), ground (arith, h, p, q, i))

  -- Where `lower` changes no e-mail that it has lowered, and the library verifies the hash it
  -- made: who has registered can log in with the same password and the e-mail in any case, and
  -- gets the id and the role of the registration, and a token that holds both with the lowered
  -- e-mail and expires after the configured minutes.
  pub register_then_login :
      (cmd : RegisterUserCommand) (draw : RegisterDraw) (db : Db) (uid : ℕ) (m : Mail)
      (email e164 hashed : Text) (now : Datetime)
      → (transaction (register env cmd draw) db).0 ≡ ok (uid, m)
      → phone_number env.digits cmd.phone_number ≡ ok e164
      → env.hash draw.salt cmd.password ≡ ok hashed
      → env.verify cmd.password hashed ≡ ok true
      → env.lower (env.lower cmd.email) ≡ env.lower cmd.email
      → env.lower email ≡ env.lower cmd.email
      → let after = (transaction (register env cmd draw) db).1 in
        login env settings email cmd.password now after ≡ (
          ok (record {
            access_token = env.jwt.encode settings.secret_key settings.jwt_algorithm record {
              sub = some (uuid_text draw.user_id);
              email = some (env.lower cmd.email);
              role = some (ClaimValue.text (role_text cmd.role));
              roles = none;
              exp = seconds (plus_delta now (minutes settings.access_token_expire_minutes));
            };
            user_id = draw.user_id;
            role = role_text cmd.role;
          }),
          after,
        )
  unfolding transaction new_user access_claims
  register_then_login cmd draw db uid m email e164 hashed now h p q v i e =
      let u = new_user cmd draw (env.lower cmd.email) e164 hashed in
      let (free, after) = registered cmd draw db uid m e164 hashed (ground (arith, h)) p q i in
      rw (h, after)
        (logs_in u email cmd.password now (record db { users = db.users ++ u ∷ [] })
          (rw e (found_last u (env.lower cmd.email) db free refl)) refl v)

  after_reset :
      (token new salt hashed : Text) (now : Datetime) (m : Mail) (db : Db) (t : PasswordResetToken)
      (u : User)
      → (reset_password env token new now salt db).0 ≡ ok m
      → get_valid (env.digest token) now db ≡ some t
      → get user_id t.user_id db.users ≡ some u
      → env.hash salt new ≡ ok hashed
      → (reset_password env token new now salt db).1.users
        ≡ put user_id (updated_user (rehashed u hashed) u now) db.users
  unfolding reset_password get_user update_user write_user mark_used
  after_reset token new salt hashed now m db t u h valid owner q =
      ground (arith, h, valid, owner, q, key_of_get user_id t.user_id db.users {v = u} owner)

  -- On a database with unique accounts and tokens: after a reset of an active account's password,
  -- a password that verifies against the new hash logs in with the account's e-mail, and one that
  -- does not is refused with INVALID_CREDENTIALS.
  pub reset_then_login :
      (token new salt hashed : Text) (now : Datetime) (m : Mail) (db : Db) (t : PasswordResetToken)
      (u : User) (email password : Text) (good : Bool) (later : Datetime)
      → IsKeyed db
      → (transaction (reset_password env token new now salt) db).0 ≡ ok m
      → get_valid (env.digest token) now db ≡ some t
      → get user_id t.user_id db.users ≡ some u
      → env.hash salt new ≡ ok hashed
      → env.lower email ≡ u.email
      → u.is_active ≡ true
      → env.verify password hashed ≡ ok good
      → let after = (transaction (reset_password env token new now salt) db).1 in
        (login env settings email password later after).0 ≡ (
          if good
          then ok (logged_in (updated_user (rehashed u hashed) u now) later)
          else err (raised_as ErrorClass.invalid_credentials))
  unfolding transaction login get_by_email updated_user
  reset_then_login token new salt hashed now m db t u email password good later s h valid owner q e
        a v =
      let stored = updated_user (rehashed u hashed) u now in
      rw
        (
          h,
          after_reset token new salt hashed now m db t u (ground (arith, h)) valid owner q,
          e,
          first-put user_id email_of stored u db.users
              (get_own user_id t.user_id db.users {v = u} owner) refl s.accounts.emails,
          v,
          a,
        )
        (ground arith)
