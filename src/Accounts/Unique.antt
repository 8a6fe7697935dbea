-- ===== src/Accounts/Unique.antt =====
-- Accounts have different ids, e-mails and phone numbers, and reset tokens different digests.
use sigis_backend.Base.{ℕ, ◌≡◌, ◌++◌, Option, refl, none, some, false, List, [], ◌∷◌, Text, arith}
use sigis_backend.Base.Table.{first, get, put, IsUnique, put-IsUnique, snoc-IsUnique}
use sigis_backend.Base.Table.Texts.{
  IsDistinct, has_text, snoc-IsDistinct, put-IsDistinct, same_text,
}
use sigis_backend.Time.{Datetime}
use sigis_backend.Domain.Users.{User}
use sigis_backend.UseCases.Auth.{AuthEnv, AuthSettings}
use sigis_backend.Accounts.{Request, serve_all}
use sigis_backend.Accounts.Writes.{serve_all-Keeps}
use sigis_backend.Store.{Db, PasswordResetToken}
use sigis_backend.Store.Keeps.{Keeps}
use sigis_backend.Store.Users.{
  user_id, create_user, update_user, write_user, updated_user, create_token, mark_used, mark_first,
  clashes, is_other_with,
}

abbrev pub email_of : User → Text
email_of u = u.email

abbrev phone_of : User → Text
phone_of u = u.phone_number

abbrev pub hash_of : PasswordResetToken → Text
hash_of t = t.token_hash

pub record IsRegistry (users : List User) : Type 0 where
  pub ids : IsUnique user_id users
  pub emails : IsDistinct email_of users
  pub phones : IsDistinct phone_of users

append-IsRegistry :
    (u : User) (users : List User)
    → clashes u users ≡ false
    → IsRegistry users
    → IsRegistry (users ++ u ∷ [])
unfolding clashes
append-IsRegistry u users h s = record {
  ids = snoc-IsUnique user_id u users (ground (arith, h)) s.ids;
  emails = snoc-IsDistinct email_of u users (ground (arith, h)) s.emails;
  phones = snoc-IsDistinct phone_of u users (ground (arith, h)) s.phones;
}

put-IsRegistry :
    (u row : User) (users : List User)
    → get user_id u.id users ≡ some row
    → u.email ≡ row.email
    → first (is_other_with u) users ≡ none
    → IsRegistry users
    → IsRegistry (put user_id u users)
put-IsRegistry u row users g e f s = record {
  ids = put-IsUnique user_id u users s.ids;
  emails =
      put-IsDistinct user_id email_of u users s.ids
        (same_text user_id email_of u row users g e s.emails) s.emails;
  phones = put-IsDistinct user_id phone_of u users s.ids f s.phones;
}

-- The accounts and the tokens of a database.
pub record IsKeyed (db : Db) : Type 0 where
  pub accounts : IsRegistry db.users
  pub hashes : IsDistinct hash_of db.reset_tokens

create_user-IsKeyed : (lower : Text → Text) (u : User) → Keeps IsKeyed (create_user lower u)
unfolding create_user
create_user-IsKeyed lower u db s = record {
  accounts =
      ground (arith, s.accounts, append-IsRegistry (record u { email = lower u.email }) db.users);
  hashes = ground (arith, s.hashes);
}

write_user-IsKeyed :
    (u : User) (now : Datetime) (row : Option User) (db : Db)
    → get user_id u.id db.users ≡ row
    → IsKeyed db
    → IsKeyed (write_user u now row db).1
unfolding write_user updated_user
write_user-IsKeyed u now none db g s = s
write_user-IsKeyed u now (some row) db g s = record {
  accounts = ground (arith, s.accounts, put-IsRegistry (updated_user u row now) row db.users);
  hashes = ground (arith, s.hashes);
}

update_user-IsKeyed : (u : User) (now : Datetime) → Keeps IsKeyed (update_user u now)
unfolding update_user
update_user-IsKeyed u now db s = write_user-IsKeyed u now (get user_id u.id db.users) db refl s

create_token-IsKeyed :
    (tid uid : ℕ) (hash : Text) (expires now : Datetime)
    → Keeps IsKeyed (create_token tid uid hash expires now)
unfolding create_token
create_token-IsKeyed tid uid hash expires now db s =
    let row : PasswordResetToken = record {
      id = tid;
      user_id = uid;
      token_hash = hash;
      expires_at = expires;
      used = false;
      created_at = now;
    } in
    record {
      accounts = ground (arith, s.accounts);
      hashes = ground (arith, s.hashes, snoc-IsDistinct hash_of row db.reset_tokens);
    }

mark_first-none :
    (hash c : Text) (ts : List PasswordResetToken)
    → first (has_text hash_of c) ts ≡ none
    → first (has_text hash_of c) (mark_first hash ts) ≡ none
unfolding mark_first first
mark_first-none hash c [] h = refl
mark_first-none hash c (t ∷ ts) h = ground (arith, mark_first-none hash c ts)

mark_first-IsDistinct :
    (hash : Text) (ts : List PasswordResetToken)
    → IsDistinct hash_of ts
    → IsDistinct hash_of (mark_first hash ts)
unfolding mark_first
mark_first-IsDistinct hash [] d = tt
mark_first-IsDistinct hash (t ∷ ts) d =
    ground (arith, mark_first-IsDistinct hash ts, mark_first-none hash (hash_of t) ts)

mark_used-IsKeyed : (hash : Text) → Keeps IsKeyed (mark_used hash)
unfolding mark_used
mark_used-IsKeyed hash db s = record {
  accounts = s.accounts;
  hashes = mark_first-IsDistinct hash db.reset_tokens s.hashes;
}

-- Whatever requests are served on accounts, those of administrators and those refused included,
-- ids, e-mails and phone numbers of accounts stay unique, and so do the digests of reset tokens.
pub accounts-IsKeyed :
    (env : AuthEnv) (settings : AuthSettings) (rs : List Request) (db : Db)
    → IsKeyed db
    → IsKeyed (serve_all env settings rs db)
accounts-IsKeyed env settings rs db s =
    serve_all-Keeps env settings IsKeyed
      (record {
        created = create_user-IsKeyed env.lower;
        updated = update_user-IsKeyed;
        issued = create_token-IsKeyed;
        spent = mark_used-IsKeyed;
      })
      rs db s
