-- ===== src/Store/Users.antt =====
-- `UserAuthRepositoryImpl` and `PasswordResetTokenRepositoryImpl` of
-- infrastructure/persistence/sqlalchemy/auth_repos.py. `str.lower` and the SHA-256 digest are the
-- environment's: arguments of the operations that use them.
use sigis_backend.Base.{
  ℕ, Bool, true, false, ◌==◌, ◌&&◌, ◌||◌, not, Option, none, some, List, [], ◌∷◌, ◌++◌, Text,
  text_eq, is_some, if◌then◌else◌,
}
use sigis_backend.Base.Table.{first, get, put}
use sigis_backend.Time.{Datetime, dt_lt}
use sigis_backend.Errors.{Failure, ErrorClass, Result, ok, err, raised_as}
use sigis_backend.Domain.Users.{User}
use sigis_backend.Store.Tables.{Db, PasswordResetToken}
use sigis_backend.Store.Session.{Exec}

abbrev pub user_id : User → ℕ
user_id u = u.id

abbrev pub has_email : Text → User → Bool
has_email email u = text_eq u.email email

abbrev pub has_phone : Text → User → Bool
has_phone phone u = text_eq u.phone_number phone

abbrev found_or_raise : Option User → Result User
found_or_raise none = err (raised_as ErrorClass.not_found)
found_or_raise (some u) = ok u

-- `get_by_id`, which raises `NotFound`.
unfoldable pub get_user : ℕ → Exec User
get_user uid db = (found_or_raise (get user_id uid db.users), db)

-- `get_by_email`, with `email.lower()` given.
unfoldable pub get_by_email : Text → Db → Option User
get_by_email lowered db = first (has_email lowered) db.users

unfoldable pub get_by_phone : Text → Db → Option User
get_by_phone phone db = first (has_phone phone) db.users

-- Whether a new row breaks the primary key, `uq_users_email` or `uq_users_phone_number`.
unfoldable pub clashes : User → List User → Bool
clashes u users =
    is_some (get user_id u.id users)
    || is_some (first (has_email u.email) users)
    || is_some (first (has_phone u.phone_number) users)

-- `create`, which flushes; `u.email` is lowered by `lower`.
unfoldable pub create_user : (Text → Text) → User → Exec (Unit {0})
unfolding clashes
create_user lower u db =
    let row = record u { email = lower u.email } in
    if clashes row db.users
    then (err Failure.integrity_error, db)
    else (ok tt, record db { users = db.users ++ row ∷ [] })

-- The columns that `update` writes on the row with the same id: not the e-mail and the creation
-- time.
unfoldable pub updated_user : User → User → Datetime → User
updated_user u row now = record u {
  email = row.email;
  created_at = row.created_at;
  updated_at = some now;
}

-- Whether another row has the phone number: the commit then fails.
abbrev pub is_other_with : User → User → Bool
is_other_with u row = has_phone u.phone_number row && not (row.id == u.id)

unfoldable pub write_user : User → Datetime → Option User → Exec (Unit {0})
unfolding updated_user
write_user u now none db = (err (raised_as ErrorClass.not_found), db)
write_user u now (some row) db =
    if is_some (first (is_other_with u) db.users)
    then (err Failure.integrity_error, db)
    else (ok tt, record db { users = put user_id (updated_user u row now) db.users })

-- `update`. Nothing follows it but the commit, or a lookup by id.
unfoldable pub update_user : User → Datetime → Exec (Unit {0})
unfolding write_user
update_user u now db = write_user u now (get user_id u.id db.users) db

abbrev pub has_hash : Text → PasswordResetToken → Bool
has_hash hash t = text_eq t.token_hash hash

-- `PasswordResetTokenRepositoryImpl.create`, with the digest given. The column `token_hash` is
-- unique; the commit, which comes next, would fail.
unfoldable pub create_token : ℕ → ℕ → Text → Datetime → Datetime → Exec (Unit {0})
create_token tid uid hash expires_at now db =
    if is_some (first (has_hash hash) db.reset_tokens) then (err Failure.integrity_error, db) else (
      ok tt,
      record db {
        reset_tokens =
            db.reset_tokens
            ++ record {
              id = tid;
              user_id = uid;
              token_hash = hash;
              expires_at = expires_at;
              used = false;
              created_at = now;
            }
              ∷ [];
      },
    )

-- The condition of `get_valid`.
abbrev pub is_valid : Text → Datetime → PasswordResetToken → Bool
is_valid hash now t = has_hash hash t && not t.used && dt_lt now t.expires_at

unfoldable pub get_valid : Text → Datetime → Db → Option PasswordResetToken
get_valid hash now db = first (is_valid hash now) db.reset_tokens

-- `row.used = True` on the first row that has the digest.
unfoldable pub mark_first : Text → List PasswordResetToken → List PasswordResetToken
mark_first hash [] = []
mark_first hash (t ∷ ts) =
    let rest = mark_first hash ts in
    if has_hash hash t then record t { used = true } ∷ ts else t ∷ rest

unfoldable pub mark_used : Text → Exec (Unit {0})
unfolding mark_first
mark_used hash db = (ok tt, record db { reset_tokens = mark_first hash db.reset_tokens })
