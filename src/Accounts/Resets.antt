-- ===== src/Accounts/Resets.antt =====
-- A reset token works once.
use sigis_backend.Base.{
  ℕ, ◌≡◌, refl, true, false, ◌&&◌, not, none, is_some, List, [], ◌∷◌, Text, text_eq_iff, arith,
}
use sigis_backend.Base.Table.{first, first-append}
use sigis_backend.Base.Table.Texts.{IsDistinct, has_text}
use sigis_backend.Time.{Datetime}
use sigis_backend.Errors.{ok, err, raised_as, ErrorClass}
use sigis_backend.Domain.Users.{User}
use sigis_backend.Store.{Db, PasswordResetToken, transaction}
use sigis_backend.Store.Keeps.{Keeps}
use sigis_backend.Store.Users.{
  get_user, create_user, update_user, write_user, create_token, mark_used, mark_first, has_hash,
  get_valid, is_valid,
}
use sigis_backend.UseCases.Auth.{AuthEnv, AuthSettings, Mail, reset_password}
use sigis_backend.Accounts.{Request, serve_all}
use sigis_backend.Accounts.Writes.{serve_all-Keeps}
use sigis_backend.Accounts.Unique.{IsKeyed, hash_of}

-- There is a token with the digest, and each such token is used.
pub record IsSpent (hash : Text) (ts : List PasswordResetToken) : Type 0 where
  pub there : is_some (first (has_hash hash) ts) ≡ true
  pub used : first (λ (t : PasswordResetToken). has_hash hash t && not t.used) ts ≡ none

abbrev HasSpent : Text → Db → Type 0
HasSpent hash db = IsSpent hash db.reset_tokens

none_valid :
    (hash : Text) (now : Datetime) (ts : List PasswordResetToken)
    → first (λ (t : PasswordResetToken). has_hash hash t && not t.used) ts ≡ none
    → first (is_valid hash now) ts ≡ none
unfolding first
none_valid hash now [] h = refl
none_valid hash now (t ∷ ts) h = ground (arith, none_valid hash now ts)

marked_there :
    (h c : Text) (ts : List PasswordResetToken)
    → is_some (first (has_hash h) (mark_first c ts)) ≡ is_some (first (has_hash h) ts)
unfolding first mark_first
marked_there h c [] = refl
marked_there h c (t ∷ ts) = ground (arith, marked_there h c ts)

marked_used :
    (h c : Text) (ts : List PasswordResetToken)
    → first (λ (t : PasswordResetToken). has_hash h t && not t.used) ts ≡ none
    → first (λ (t : PasswordResetToken). has_hash h t && not t.used) (mark_first c ts) ≡ none
unfolding first mark_first
marked_used h c [] e = refl
marked_used h c (t ∷ ts) e = ground (arith, marked_used h c ts)

none_unused :
    (h : Text) (ts : List PasswordResetToken)
    → first (has_text hash_of h) ts ≡ none
    → first (λ (t : PasswordResetToken). has_hash h t && not t.used) ts ≡ none
unfolding first
none_unused h [] e = refl
none_unused h (t ∷ ts) e = ground (arith, none_unused h ts)

-- Marking the one token with a digest.
marked_all :
    (h : Text) (ts : List PasswordResetToken)
    → IsDistinct hash_of ts
    → first (λ (t : PasswordResetToken). has_hash h t && not t.used) (mark_first h ts) ≡ none
unfolding first mark_first
marked_all h [] d = refl
marked_all h (t ∷ ts) d =
    ground (arith, marked_all h ts, none_unused h ts, text_eq_iff (hash_of t) h)

module _ (hash : Text) where
  created : (env : AuthEnv) (u : User) → Keeps (HasSpent hash) (create_user env.lower u)
  unfolding create_user
  created env u db s = record { there = ground (arith, s.there); used = ground (arith, s.used) }

  updated : (u : User) (now : Datetime) → Keeps (HasSpent hash) (update_user u now)
  unfolding update_user write_user
  updated u now db s = record { there = ground (arith, s.there); used = ground (arith, s.used) }

  issued :
      (tid uid : ℕ) (c : Text) (expires now : Datetime)
      → Keeps (HasSpent hash) (create_token tid uid c expires now)
  unfolding create_token first
  issued tid uid c expires now db s =
      let row : PasswordResetToken = record {
        id = tid;
        user_id = uid;
        token_hash = c;
        expires_at = expires;
        used = false;
        created_at = now;
      } in
      record {
        there = ground (arith, s.there, first-append (has_hash hash) db.reset_tokens (row ∷ []));
        used = ground (
          arith,
          s.there,
          s.used,
          text_eq_iff c hash,
          first-append (λ (t : PasswordResetToken). has_hash hash t && not t.used) db.reset_tokens
              (row ∷ []),
        );
      }

  spent : (c : Text) → Keeps (HasSpent hash) (mark_used c)
  unfolding mark_used
  spent c db s = record {
    there = rw (marked_there hash c db.reset_tokens) s.there;
    used = marked_used hash c db.reset_tokens s.used;
  }

valid_there :
    (h : Text) (now : Datetime) (ts : List PasswordResetToken)
    → is_some (first (is_valid h now) ts) ≡ true
    → is_some (first (has_hash h) ts) ≡ true
unfolding first
valid_there h now [] e = e
valid_there h now (t ∷ ts) e = ground (arith, e, valid_there h now ts)

module _ (env : AuthEnv) (settings : AuthSettings) where
  spends :
      (token new : Text) (now : Datetime) (salt : Text) (m : Mail) (db : Db)
      → IsKeyed db
      → (reset_password env token new now salt db).0 ≡ ok m
      → HasSpent (env.digest token) (reset_password env token new now salt db).1
  unfolding reset_password get_user update_user write_user mark_used get_valid
  spends token new now salt m db s h = record {
    there = ground (
      arith,
      h,
      valid_there (env.digest token) now db.reset_tokens,
      marked_there (env.digest token) (env.digest token) db.reset_tokens,
    );
    used = ground (arith, h, marked_all (env.digest token) db.reset_tokens s.hashes);
  }

  refuses :
      (token new : Text) (now : Datetime) (salt : Text) (db : Db)
      → HasSpent (env.digest token) db
      → transaction (reset_password env token new now salt) db
        ≡ (err (raised_as ErrorClass.token_expired_or_invalid), db)
  unfolding transaction reset_password get_valid
  refuses token new now salt db s =
      rw (none_valid (env.digest token) now db.reset_tokens s.used) refl

  -- On a database whose reset tokens have different digests: a token that has reset a password is
  -- refused from then on, with TOKEN_EXPIRED_OR_INVALID and no change, whatever requests on
  -- accounts are served in between.
  pub reset_once :
      (token new new' : Text) (now now' : Datetime) (salt salt' : Text) (m : Mail) (db : Db)
      (rs : List Request)
      → IsKeyed db
      → (transaction (reset_password env token new now salt) db).0 ≡ ok m
      → let later =
          serve_all env settings rs (transaction (reset_password env token new now salt) db).1 in
        transaction (reset_password env token new' now' salt') later
        ≡ (err (raised_as ErrorClass.token_expired_or_invalid), later)
  unfolding transaction
  reset_once token new new' now now' salt salt' m db rs s h =
      let after = (transaction (reset_password env token new now salt) db).1 in
      refuses token new' now' salt' (serve_all env settings rs after) (
        serve_all-Keeps env settings (HasSpent (env.digest token))
          (record {
            created = created (env.digest token) env;
            updated = updated (env.digest token);
            issued = issued (env.digest token);
            spent = spent (env.digest token);
          })
          rs after (rw h (spends token new now salt m db s h)))
