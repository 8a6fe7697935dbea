-- ===== src/Store/Idempotency/Keys.antt =====
-- The unique constraint on the scope and the key of a stored answer.
use sigis_backend.Base.{
  ◌≡◌, ◌≢◌, ◌↔◌, inl, inr, Bool-cases, refl, true, false, none, some, List, [], ◌∷◌, ◌++◌, Text,
  text_eq_iff, select, arith,
}
use sigis_backend.Time.{Datetime}
use sigis_backend.Errors.{ok}
use sigis_backend.Store.Tables.{Db, Scope, scope_eq, Payload, IdempotencyRecord}
use sigis_backend.Store.Idempotency.{has_key, get_response, save_response}

pub scope_eq_iff : (a b : Scope) → (scope_eq a b ≡ true) ↔ (a ≡ b)
scope_eq_iff (Scope.check_in a) (Scope.check_in b) = ground arith
scope_eq_iff (Scope.check_in a) (Scope.confirm_host b) = ground arith
scope_eq_iff (Scope.check_in a) (Scope.check_out b) = ground arith
scope_eq_iff (Scope.confirm_host a) (Scope.check_in b) = ground arith
scope_eq_iff (Scope.confirm_host a) (Scope.confirm_host b) = ground arith
scope_eq_iff (Scope.confirm_host a) (Scope.check_out b) = ground arith
scope_eq_iff (Scope.check_out a) (Scope.check_in b) = ground arith
scope_eq_iff (Scope.check_out a) (Scope.confirm_host b) = ground arith
scope_eq_iff (Scope.check_out a) (Scope.check_out b) = ground arith

-- `UNIQUE (scope, client_key)`.
abbrev pub UniqueKeys : List IdempotencyRecord → Type 0
UniqueKeys [] = Unit
UniqueKeys (r ∷ rs) = (select (has_key r.scope r.client_key) rs ≡ []) × UniqueKeys rs

select-append_miss :
    (s : Scope) (k : Text) (r : IdempotencyRecord) (rs : List IdempotencyRecord)
    → has_key s k r ≡ false
    → select (has_key s k) (rs ++ r ∷ []) ≡ select (has_key s k) rs
select-append_miss s k r [] h = ground arith
select-append_miss s k r (x ∷ rs) h = ground (arith, select-append_miss s k r rs h)

-- A key that selects nothing stays unselected by another record's key, and the other way round.
miss :
    (r x : IdempotencyRecord)
    → has_key r.scope r.client_key x ≡ false
    → has_key x.scope x.client_key r ≡ false
miss r x h = ground (
  arith,
  scope_eq_iff x.scope r.scope,
  scope_eq_iff r.scope x.scope,
  text_eq_iff x.client_key r.client_key,
  text_eq_iff r.client_key x.client_key,
)

pub UniqueKeys-append :
    (r : IdempotencyRecord) (rs : List IdempotencyRecord)
    → select (has_key r.scope r.client_key) rs ≡ []
    → UniqueKeys rs
    → UniqueKeys (rs ++ r ∷ [])
UniqueKeys-append r [] f u = (refl, tt)
UniqueKeys-append r (x ∷ rs) f u =
    ground (arith, UniqueKeys-append r rs, miss r x, select-append_miss x.scope x.client_key r rs)

-- The one stored answer under the key of a record that was just added.
select-append_hit :
    (r : IdempotencyRecord) (rs : List IdempotencyRecord)
    → select (has_key r.scope r.client_key) rs ≡ []
    → select (has_key r.scope r.client_key) (rs ++ r ∷ []) ≡ r ∷ []
select-append_hit r [] h =
    ground (arith, scope_eq_iff r.scope r.scope, text_eq_iff r.client_key r.client_key)
select-append_hit r (x ∷ rs) h = ground (arith, select-append_hit r rs)

-- Nothing is stored under a key when the lookup finds nothing.
pub nothing_stored :
    (s : Scope) (k : Text) (db : Db)
    → (get_response s k db).0 ≡ ok none
    → select (has_key s k) db.idempotency ≡ []
unfolding get_response
nothing_stored s k db h = ground arith

-- An answer that is stored under a new key is what the next lookup of that key gives.
pub get_response-save_response :
    (s : Scope) (k : Text) (now : Datetime) (p : Payload) (db : Db)
    → (get_response s k db).0 ≡ ok none
    → get_response s k (save_response s k now p db).1
      ≡ (ok (some p), (save_response s k now p db).1)
unfolding get_response save_response
get_response-save_response s k now p db h = rw (
    select-append_hit (record { scope = s; client_key = k; created_at = now; response_body = p })
      db.idempotency (nothing_stored s k db h))

pub save_response-UniqueKeys :
    (s : Scope) (k : Text) (now : Datetime) (p : Payload) (db : Db)
    → (get_response s k db).0 ≡ ok none
    → UniqueKeys db.idempotency
    → UniqueKeys (save_response s k now p db).1.idempotency
unfolding save_response
save_response-UniqueKeys s k now p db h u =
    UniqueKeys-append (record { scope = s; client_key = k; created_at = now; response_body = p })
      db.idempotency (nothing_stored s k db h) u

select-append_found :
    (s : Scope) (k : Text) (r x : IdempotencyRecord) (rs : List IdempotencyRecord)
    → has_key s k r ≡ false
    → select (has_key s k) rs ≡ x ∷ []
    → select (has_key s k) (rs ++ r ∷ []) ≡ x ∷ []
select-append_found s k r x rs m h = rw (select-append_miss s k r rs m) h

-- A new key is another key than one that has an answer.
new_key_differs :
    (r : IdempotencyRecord) (s : Scope) (k : Text) (rs : List IdempotencyRecord)
    → select (has_key r.scope r.client_key) rs ≡ []
    → select (has_key s k) rs ≢ []
    → has_key s k r ≡ false
new_key_differs r s k rs none_yet held = elim (Bool-cases (has_key s k r)) [
  | inr other ↦ other
  | inl same ↦
      absurd (held (ground (arith, scope_eq_iff r.scope s, text_eq_iff r.client_key k, none_yet)))
]

-- Storing a new answer leaves those of the other keys.
pub get_response-save_other :
    (s s' : Scope) (k k' : Text) (now : Datetime) (p q : Payload) (db : Db)
    → (get_response s k db).0 ≡ ok none
    → (get_response s' k' db).0 ≡ ok (some q)
    → (get_response s' k' (save_response s k now p db).1).0 ≡ ok (some q)
unfolding get_response save_response
get_response-save_other s s' k k' now p q db none_yet held =
    let r : IdempotencyRecord = record {
      scope = s;
      client_key = k;
      created_at = now;
      response_body = p;
    } in
    rw
      (select-append_miss s' k' r db.idempotency (
        new_key_differs r s' k' db.idempotency (nothing_stored s k db none_yet)
          (λ e. ground (arith, e, held))))
      held
