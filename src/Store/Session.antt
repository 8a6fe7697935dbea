-- ===== src/Store/Session.antt =====
-- A method that reads and writes the session and may raise. What it has written stays in the
-- session when it raises; the unit of work (infrastructure/persistence/sqlalchemy/uow.py) then
-- rolls the session back.
use sigis_backend.Base.{Bool, Option, none, some, if◌then◌else◌}
use sigis_backend.Errors.{Result, ok, err, Failure}
use sigis_backend.Store.Tables.{Db}

abbrev pub Exec : Type 0 → Type 0
Exec A = Db → Result A × Db

module _ {A : Type 0} where
  abbrev pub pure : A → Exec A
  pure a db = (ok a, db)

  abbrev pub raise : Failure → Exec A
  raise e db = (err e, db)

  abbrev pub lift : Result A → Exec A
  lift r db = (r, db)

  abbrev pub gets : (Db → A) → Exec A
  gets f db = (ok (f db), db)

  -- `if x is None: raise e`
  abbrev pub or_raise : Option A → Failure → Exec A
  or_raise none e db = (err e, db)
  or_raise (some a) e db = (ok a, db)

-- An exception skips the rest.
abbrev pub go_on : {A B : Type 0} → Result A → (A → Exec B) → Exec B
go_on (ok a) f db = f a db
go_on (err e) f db = (err e, db)

infixl 5 ◌>>=◌ ◌>>◌
abbrev pub ◌>>=◌ : {A B : Type 0} → Exec A → (A → Exec B) → Exec B
◌>>=◌ m f db = go_on (m db).0 f (m db).1

abbrev pub ◌>>◌ : {A B : Type 0} → Exec A → Exec B → Exec B
m >> k = m >>= λ _. k

abbrev pub raise_if : Bool → Failure → Exec (Unit {0})
raise_if c e db = (if c then err e else ok tt, db)

abbrev pub modify : (Db → Db) → Exec (Unit {0})
modify f db = (ok tt, f db)

-- `__aexit__`: commit, or roll back to what the session began with.
abbrev pub finish : {A : Type 0} → Db → Result A → Db → Db
finish before (ok a) after = after
finish before (err e) after = before

-- A request: `async with SqlAlchemyUnitOfWork(factory) as uow`.
unfoldable pub transaction : {A : Type 0} → Exec A → Exec A
transaction m db = let (r, after) = m db in (r, finish db r after)
