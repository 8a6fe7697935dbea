-- ===== src/Api/Users/Rights.antt =====
-- Who may change an account, and what.
use sigis_backend.Base.{
  ℕ, true, false, ◌==◌, ◌≡◌, ◌≢◌, refl, ◌⊎◌, inl, inr, Bool-cases, Option, none, some, Text, arith,
}
use sigis_backend.Base.Table.{get, get-put, put, key_of_get, get_own}
use sigis_backend.Time.{Datetime}
use sigis_backend.Errors.{Result-cases, err, ok, Failure}
use sigis_backend.Domain.Roles.{Role}
use sigis_backend.Domain.Users.{User}
use sigis_backend.Domain.Phone.{Digits}
use sigis_backend.Store.{Db}
use sigis_backend.Store.Users.{user_id, get_user, update_user, write_user, updated_user}
use sigis_backend.Api.Users.{UpdateUserBody, is_admin, patch_user, changed_user, new_phone}

module _ (digits : Digits) (uid : ℕ) (body : UpdateUserBody) (caller : ℕ) (role : Option Role)
    (now : Datetime) (db : Db) (u u' : User) (found : get user_id uid db.users ≡ some u)
    (h : (patch_user digits uid body caller role now db).0 ≡ ok u') where
  may : (is_admin role ≡ true) ⊎ ((caller ≡ uid) × (body.is_active ≡ none) × (body.role ≡ none))
  unfolding patch_user
  may = elim (Bool-cases (is_admin role)) [
    | inl a ↦ inl a
    | inr b ↦ inr (ground (arith, h, b), ground (arith, h, b), ground (arith, h, b))
  ]

  phone_reads : (p : Option Text) (old : Text) → (new_phone digits uid p old db).1 ≡ db
  unfolding new_phone
  phone_reads none old = refl
  phone_reads (some raw) old = ground arith

  -- The row that is written, and read again.
  written :
      (e164 : Text)
      → (new_phone digits uid body.phone_number u.phone_number db).0 ≡ ok e164
      → let row = updated_user (changed_user body e164 u) u now in
        (u' ≡ row)
        × ((patch_user digits uid body caller role now db).1.users ≡ put user_id row db.users)
  unfolding patch_user get_user update_user write_user
  written e164 p =
      let reads = phone_reads body.phone_number u.phone_number in
      let same = key_of_get user_id uid db.users {v = u} found in
      ground (
        arith,
        h,
        found,
        p,
        reads,
        same,
        get_own user_id uid db.users {v = u} found,
        get-put user_id uid (updated_user (changed_user body e164 u) u now) db.users,
      )

  refused_phone :
      (e : Failure) → (new_phone digits uid body.phone_number u.phone_number db).0 ≢ err e
  unfolding patch_user get_user
  refused_phone e p =
      let reads = phone_reads body.phone_number u.phone_number in ground (arith, h, found, p, reads)

  -- A change that is accepted, by the account's user or by an administrator: others than
  -- administrators change neither the role nor whether the account is active. Nobody changes its
  -- id, e-mail or password, or another account.
  pub patch_user-Rights :
      ((is_admin role ≡ true)
        ⊎ ((caller ≡ uid) × (u'.role ≡ u.role) × (u'.is_active ≡ u.is_active)))
      × (u'.id ≡ uid)
      × (u'.email ≡ u.email)
      × (u'.hashed_password ≡ u.hashed_password)
      × ((j : ℕ)
          → (uid == j) ≡ false
          → get user_id j (patch_user digits uid body caller role now db).1.users
            ≡ get user_id j db.users)
  unfolding changed_user updated_user
  patch_user-Rights =
      elim (Result-cases (new_phone digits uid body.phone_number u.phone_number db).0) [
        | inr (e, p) ↦ absurd (refused_phone e p)
        | inl (e164, p) ↦
            let row = updated_user (changed_user body e164 u) u now in
            let (is_row, users) = written e164 p in
            let same = key_of_get user_id uid db.users {v = u} found in
            (
              elim may [
                | inl a ↦ inl a
                | inr (self, active, kept) ↦
                    inr (self, ground (arith, is_row, kept), ground (arith, is_row, active))
              ],
              ground (arith, is_row, same),
              ground (arith, is_row),
              ground (arith, is_row),
              λ j other. rw users (ground (arith, other, same, get-put user_id j row db.users)),
            )
      ]
