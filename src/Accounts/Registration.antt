-- ===== src/Accounts/Registration.antt =====
-- What a registration answers and stores
-- (application/use_cases/auth/register_user.py): its own tests keep the unique columns.
use sigis_backend.Base.{
  ◌≡◌, refl, Option-cases, inl, inr, is_some, true, none, [], ◌∷◌, ◌++◌, Text, if◌then◌else◌,
}
use sigis_backend.Base.Table.{get}
use sigis_backend.Errors.{ok, err, raised_as, ErrorClass}
use sigis_backend.Domain.Phone.{phone_number}
use sigis_backend.Store.{Db, transaction}
use sigis_backend.Store.Users.{user_id, get_by_email, get_by_phone, clashes, create_user}
use sigis_backend.UseCases.Auth.{
  AuthEnv, AuthSettings, Mail, RegisterUserCommand, RegisterDraw, new_user, register,
}
use sigis_backend.Accounts.{Request, serve, serve_all}
use sigis_backend.Accounts.Unique.{IsKeyed, accounts-IsKeyed}

-- The settings, which a registration does not read.
abbrev no_settings : AuthSettings
no_settings = record {
  secret_key = [];
  jwt_algorithm = [];
  access_token_expire_minutes = 0;
  reset_token_expire_minutes = 0;
}

module _ (env : AuthEnv) (cmd : RegisterUserCommand) (draw : RegisterDraw) (db : Db)
    (e164 hashed : Text) where
  outcome :
      get user_id draw.user_id db.users ≡ none
      → phone_number env.digits cmd.phone_number ≡ ok e164
      → env.hash draw.salt cmd.password ≡ ok hashed
      → env.lower (env.lower cmd.email) ≡ env.lower cmd.email
      → transaction (register env cmd draw) db ≡ (
          if is_some (get_by_email (env.lower cmd.email) db)
          then (err (raised_as ErrorClass.email_already_exists), db)
          else if is_some (get_by_phone e164 db)
          then (err (raised_as ErrorClass.phone_already_exists), db)
          else (
            ok (draw.user_id, Mail.welcome (env.lower cmd.email) cmd.full_name cmd.role),
            record db {
              users =
                  db.users
                  ++ record {
                    id = draw.user_id;
                    email = env.lower cmd.email;
                    full_name = cmd.full_name;
                    phone_number = e164;
                    hashed_password = hashed;
                    role = cmd.role;
                    is_active = true;
                    created_at = draw.now;
                    updated_at = none;
                  }
                    ∷ [];
            },
          ))
  unfolding transaction register create_user clashes new_user get_by_email get_by_phone
  outcome fresh p q i = elim (Option-cases (get_by_email (env.lower cmd.email) db)) [
    | inr (u, taken) ↦ rw (p, taken) refl
    | inl free ↦ elim (Option-cases (get_by_phone e164 db)) [
      | inr (u, taken) ↦ rw (p, free, taken) refl
      | inl unused ↦ rw (p, free, unused, q, i, fresh, free, unused) refl
    ]
  ]

  keeps_keys : IsKeyed db → IsKeyed (transaction (register env cmd draw) db).1
  unfolding serve_all serve
  keeps_keys s = accounts-IsKeyed env no_settings (Request.sign_up cmd draw ∷ []) db s

  -- On a database with unique accounts, where the number is a phone number, the hash is made, the
  -- drawn id is unused and `lower` does not change what it has lowered, a registration ends in one
  -- of three ways. If an account has the lowered e-mail, it is refused for that; else, if one has
  -- the normalised number, for that; and both write nothing. Else it adds exactly one account,
  -- active and with the role that was asked for, and answers with its id and the mail. So the
  -- unique columns never make it fail, and accounts are unique afterwards.
  pub register_outcome :
      IsKeyed db
      → get user_id draw.user_id db.users ≡ none
      → phone_number env.digits cmd.phone_number ≡ ok e164
      → env.hash draw.salt cmd.password ≡ ok hashed
      → env.lower (env.lower cmd.email) ≡ env.lower cmd.email
      → let after = transaction (register env cmd draw) db in
        (after ≡ (
          if is_some (get_by_email (env.lower cmd.email) db)
          then (err (raised_as ErrorClass.email_already_exists), db)
          else if is_some (get_by_phone e164 db)
          then (err (raised_as ErrorClass.phone_already_exists), db)
          else (
            ok (draw.user_id, Mail.welcome (env.lower cmd.email) cmd.full_name cmd.role),
            record db {
              users =
                  db.users
                  ++ record {
                    id = draw.user_id;
                    email = env.lower cmd.email;
                    full_name = cmd.full_name;
                    phone_number = e164;
                    hashed_password = hashed;
                    role = cmd.role;
                    is_active = true;
                    created_at = draw.now;
                    updated_at = none;
                  }
                    ∷ [];
            },
          )))
        × IsKeyed after.1
  register_outcome s fresh p q i = (outcome fresh p q i, keeps_keys s)
