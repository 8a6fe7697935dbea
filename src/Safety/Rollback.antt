-- ===== src/Safety/Rollback.antt =====
-- What every request keeps: one that raises is rolled back by the unit of work
-- (infrastructure/persistence/sqlalchemy/uow.py), and one that is replayed writes nothing.
use mathlib.Core.Path.{subst}
use sigis_backend.Base.{◌≡◌, refl, Text, Option, none, some}
use sigis_backend.Errors.{Result, ok, err}
use sigis_backend.Store.{Db, Exec, Scope, Payload, transaction, ◌>>=◌}
use sigis_backend.Store.Binds.{>>=-Step}
use sigis_backend.Store.Idempotency.{get_response}
use sigis_backend.UseCases.CheckIn.{replay_or}

-- The shape of the three visit operations: a stored answer is given again, or the work is done.
abbrev pub replayed : Scope → Text → Exec Payload → Exec Payload
replayed s k fresh = get_response s k >>= λ c. replay_or c fresh

pub response_same : (s : Scope) (k : Text) (db : Db) → (get_response s k db).1 ≡ db
unfolding get_response
response_same s k db = refl

module _ (P : Db → Type 0) where
  transaction_cases :
      {A : Type 0} (m : Exec A) (db : Db) (r : Result A)
      → (m db).0 ≡ r
      → P db
      → ((a : A) → (m db).0 ≡ ok a → P (m db).1)
      → P (transaction m db).1
  unfolding transaction
  transaction_cases m db (ok a) e s good = rw e (good a e)
  transaction_cases m db (err x) e s good = rw e s

  pub transaction_keeps :
      {A : Type 0} (m : Exec A) (db : Db)
      → P db
      → ((a : A) → (m db).0 ≡ ok a → P (m db).1)
      → P (transaction m db).1
  transaction_keeps m db s good = transaction_cases m db (m db).0 refl s good

  answered :
      (s : Scope) (k : Text) (fresh : Exec Payload) (db : Db) (c : Option Payload) (p : Payload)
      → P db
      → ((p : Payload) → (get_response s k db).0 ≡ ok none → (fresh db).0 ≡ ok p → P (fresh db).1)
      → (get_response s k db).0 ≡ ok c
      → (replay_or c fresh db).0 ≡ ok p
      → P (replay_or c fresh db).1
  answered s k fresh db none p was good e h = good p e h
  answered s k fresh db (some p') p was good e h = was

  pub replayed_keeps :
      (s : Scope) (k : Text) (fresh : Exec Payload) (db : Db)
      → P db
      → ((p : Payload) → (get_response s k db).0 ≡ ok none → (fresh db).0 ≡ ok p → P (fresh db).1)
      → P (transaction (replayed s k fresh) db).1
  replayed_keeps s k fresh db was good = transaction_keeps (replayed s k fresh) db was λ p h.
      let a = >>=-Step (get_response s k) (λ c. replay_or c fresh) db p h in
      rw (a.rest, response_same s k db)
        (answered s k fresh db a.result p was good a.first (
          subst (λ x. (replay_or a.result fresh x).0 ≡ ok p) (response_same s k db)
            (rw a.rest at h)))
