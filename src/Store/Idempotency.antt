-- ===== src/Store/Idempotency.antt =====
-- `IdempotencyRepositoryImpl` of infrastructure/persistence/sqlalchemy/extra_repos.py.
pub mod Keys
use sigis_backend.Base.{
  ℕ, Bool, ◌&&◌, Option, none, some, [], ◌∷◌, ◌++◌, Text, text_eq, length, not, select,
}
use sigis_backend.Time.{Datetime, dt_lt}
use sigis_backend.Errors.{Result, ok, err}
use sigis_backend.Store.Tables.{Scope, scope_eq, Payload, IdempotencyRecord}
use sigis_backend.Store.Session.{Exec}
use sigis_backend.Store.Visits.{scalar_one_or_none}

abbrev pub has_key : Scope → Text → IdempotencyRecord → Bool
has_key scope client_key r = scope_eq r.scope scope && text_eq r.client_key client_key

abbrev body_of : Result (Option IdempotencyRecord) → Result (Option Payload)
body_of (ok none) = ok none
body_of (ok (some r)) = ok (some r.response_body)
body_of (err e) = err e

unfoldable pub get_response : Scope → Text → Exec (Option Payload)
get_response scope client_key db =
    (body_of (scalar_one_or_none (select (has_key scope client_key) db.idempotency)), db)

unfoldable pub save_response : Scope → Text → Datetime → Payload → Exec (Unit {0})
save_response scope client_key now response_body db = (
  ok tt,
  record db {
    idempotency =
        db.idempotency
        ++ record {
          scope = scope;
          client_key = client_key;
          created_at = now;
          response_body = response_body;
        }
          ∷ [];
  },
)

abbrev is_older : Datetime → IdempotencyRecord → Bool
is_older cutoff r = dt_lt r.created_at cutoff

-- `delete_older_than`: the number of rows deleted.
unfoldable pub delete_older_than : Datetime → Exec ℕ
delete_older_than cutoff db = (
  ok (length (select (is_older cutoff) db.idempotency)),
  record db { idempotency = select (λ r. not (is_older cutoff r)) db.idempotency },
)
