-- ===== src/Tests/Accounts.antt =====
-- Accounts in the small world.
use sigis_backend.Base.{
  none, ◌≡◌, ◌≢◌, refl, true, false, ◌&&◌, [], ◌∷◌, ◌++◌, codes, text_eq, length, leb, arith,
}
use sigis_backend.Base.Table.{first, get, put}
use sigis_backend.Base.Strip.{is_space, lstrip, strip}
use sigis_backend.Time.{instant, plus_delta}
use sigis_backend.Errors.{ok, err, raised_as, ErrorClass}
use sigis_backend.Domain.Roles.{Role}
use sigis_backend.Domain.AccessTokens.{Decoded, role_text}
use sigis_backend.Domain.Phone.{
  Digits, starts_with, is_separator, drop_prefix, normalize, is_mobile_block, is_fixed_block,
  phone_number, operator, Operator,
}
use sigis_backend.Domain.Phone.RoundTrip.{IsUnicode, phone_number_again, operator-ne-inconnu}
use sigis_backend.Store.{Db, PasswordResetToken, transaction}
use sigis_backend.Store.Users.{
  get_by_email, get_by_phone, get_user, clashes, create_user, update_user, write_user, updated_user,
  create_token, get_valid, mark_used, mark_first,
}
use sigis_backend.UseCases.Auth.{
  AuthEnv, AuthSettings, Mail, RegisterUserCommand, RegisterDraw, register, new_user, login,
  request_reset, reset_password,
}
use sigis_backend.Accounts.{Request, serve, serve_all}
use sigis_backend.Accounts.Unique.{IsKeyed, accounts-IsKeyed}
use sigis_backend.Accounts.Registration.{register_outcome}
use sigis_backend.Accounts.Login.{register_then_login, reset_then_login}
use sigis_backend.Accounts.Resets.{reset_once}
use sigis_backend.Tests.World.{at, empty, user}

-- The digits of ASCII only.
abbrev pub ascii : Digits
ascii = record { is_digit = λ c. leb 48 c && leb c 57; is_decimal = λ c. leb 48 c && leb c 57 }

ascii-IsUnicode : IsUnicode ascii
unfolding is_separator is_space
ascii-IsUnicode = record {
  decimal = λ c h. h;
  plain = λ c h. ground (arith, h);
  ascii = λ c h. refl;
}

phone_number_again_example :
    (phone_number ascii (codes "+237670000009") ≡ ok (codes "+237670000009"))
    × (length (codes "+237670000009") ≡ 13)
    × (starts_with (codes "+237") (codes "+237670000009") ≡ true)
unfolding phone_number normalize strip lstrip is_space is_separator drop_prefix is_mobile_block
    is_fixed_block
phone_number_again_example =
    phone_number_again ascii ascii-IsUnicode (codes " 237 6 70-00.00 09") (codes "+237670000009")
      refl

operator-ne-inconnu_example : operator (codes "+237670000009") ≢ Operator.inconnu
unfolding phone_number normalize strip lstrip is_space is_separator drop_prefix is_mobile_block
    is_fixed_block
operator-ne-inconnu_example =
    operator-ne-inconnu ascii ascii-IsUnicode (codes " 237 6 70-00.00 09") (codes "+237670000009")
      refl refl

-- Hashing puts a mark in front, and verifying compares; a token says its whole payload.
abbrev pub auth_env : AuthEnv
auth_env = record {
  hash = λ salt password. ok (codes "#" ++ password);
  verify = λ password hashed. ok (text_eq (codes "#" ++ password) hashed);
  lower = λ s. s;
  digest = λ s. codes "d" ++ s;
  digits = ascii;
  jwt = record { encode = λ key alg c. codes "signed"; decode = λ key alg now t. Decoded.invalid };
}

abbrev pub auth_settings : AuthSettings
auth_settings = record {
  secret_key = codes "secret";
  jwt_algorithm = codes "HS256";
  access_token_expire_minutes = 60;
  reset_token_expire_minutes = 30;
}

empty-IsKeyed : IsKeyed empty
unfolding first get
empty-IsKeyed = record {
  accounts = record {
    ids = (refl, (refl, (refl, tt)));
    emails = (refl, (refl, (refl, tt)));
    phones = (refl, (refl, (refl, tt)));
  };
  hashes = tt;
}

abbrev forgot : Request
forgot =
    Request.forgot (1 ∷ codes "@sigis.cm")
      (record { now = at 0; raw_token = codes "tok"; token_id = 90 })

abbrev newcomer : RegisterUserCommand
newcomer = record {
  email = codes "a@b.cm";
  full_name = codes "A";
  phone_number = codes "699 00 00 00";
  password = codes "pw";
  role = Role.inspector;
}

abbrev newcomer_draw : RegisterDraw
newcomer_draw = record { now = at 5; user_id = 9; salt = codes "s" }

abbrev asked : Db
asked = serve_all auth_env auth_settings (forgot ∷ []) empty

asked-IsKeyed : IsKeyed asked
asked-IsKeyed = accounts-IsKeyed auth_env auth_settings (forgot ∷ []) empty empty-IsKeyed

abbrev changed_mail : Mail
changed_mail = Mail.password_changed (1 ∷ codes "@sigis.cm") (codes "Name")

reset_once_example :
    let later =
      serve_all auth_env auth_settings
        (forgot ∷ [])
        (transaction
          (reset_password auth_env (codes "tok") (codes "new") (at 10) (codes "s"))
          asked).1 in
    transaction (reset_password auth_env (codes "tok") (codes "newer") (at 11) (codes "s")) later
    ≡ (err (raised_as ErrorClass.token_expired_or_invalid), later)
unfolding serve_all serve transaction request_reset get_by_email first get create_token plus_delta
    reset_password get_valid instant get_user update_user write_user mark_used mark_first put
    updated_user
reset_once_example =
    reset_once auth_env auth_settings (codes "tok") (codes "new") (codes "newer") (at 10) (at 11)
      (codes "s") (codes "s") changed_mail asked (forgot ∷ []) asked-IsKeyed refl

register_outcome_example :
    let after = transaction (register auth_env newcomer newcomer_draw) empty in
    (after ≡ (
      ok (9, Mail.welcome (codes "a@b.cm") (codes "A") Role.inspector),
      record empty {
        users =
            empty.users
            ++ record {
              id = 9;
              email = codes "a@b.cm";
              full_name = codes "A";
              phone_number = codes "+237699000000";
              hashed_password = codes "#pw";
              role = Role.inspector;
              is_active = true;
              created_at = at 5;
              updated_at = none;
            }
              ∷ [];
      },
    ))
    × IsKeyed after.1
unfolding phone_number normalize strip lstrip is_space is_separator drop_prefix is_mobile_block
    is_fixed_block get_by_email get_by_phone first get
register_outcome_example =
    register_outcome auth_env newcomer newcomer_draw empty (codes "+237699000000") (codes "#pw")
      empty-IsKeyed refl refl refl refl

register_then_login_example :
    let after = (transaction (register auth_env newcomer newcomer_draw) empty).1 in
    login auth_env auth_settings (codes "a@b.cm") (codes "pw") (at 7) after
    ≡ (ok (record { access_token = codes "signed"; user_id = 9; role = codes "INSPECTOR" }), after)
unfolding transaction register phone_number normalize strip lstrip is_space is_separator drop_prefix
    is_mobile_block is_fixed_block get_by_email get_by_phone first get create_user clashes new_user
    role_text
register_then_login_example =
    register_then_login auth_env auth_settings newcomer newcomer_draw empty 9
      (Mail.welcome (codes "a@b.cm") (codes "A") Role.inspector) (codes "a@b.cm")
      (codes "+237699000000") (codes "#pw") (at 7) refl refl refl refl refl refl

abbrev first_token : PasswordResetToken
first_token = record {
  id = 90;
  user_id = 1;
  token_hash = codes "dtok";
  expires_at = at 30;
  used = false;
  created_at = at 0;
}

reset_then_login_example :
    let after =
      (transaction
        (reset_password auth_env (codes "tok") (codes "new") (at 10) (codes "s"))
        asked).1 in
    (login auth_env auth_settings (1 ∷ codes "@sigis.cm") (codes "old") (at 12) after).0
    ≡ err (raised_as ErrorClass.invalid_credentials)
unfolding serve_all serve transaction request_reset get_by_email first get create_token plus_delta
    reset_password get_valid instant get_user update_user write_user mark_used mark_first put
    updated_user
reset_then_login_example =
    reset_then_login auth_env auth_settings (codes "tok") (codes "new") (codes "s") (codes "#new")
      (at 10) changed_mail asked first_token (user 1 Role.inspector) (1 ∷ codes "@sigis.cm")
      (codes "old") false (at 12) asked-IsKeyed refl refl refl refl refl refl refl
