-- ===== src/Store/Keeps.antt =====
-- Methods that keep a property of the session, whether they raise or not.
use sigis_backend.Errors.{Result, ok, err}
use sigis_backend.Store.Tables.{Db}
use sigis_backend.Store.Session.{Exec, finish, transaction}

module _ (P : Db → Type 0) where
  abbrev pub Keeps : {A : Type 0} → Exec A → Type 0
  Keeps m = (db : Db) → P db → P (m db).1

  finish-Keeps :
      {A : Type 0} (before after : Db) (r : Result A)
      → P before
      → P after
      → P (finish before r after)
  finish-Keeps before after (ok a) hb ha = ha
  finish-Keeps before after (err e) hb ha = hb

  pub transaction-Keeps : {A : Type 0} (m : Exec A) → Keeps m → Keeps (transaction m)
  unfolding transaction
  transaction-Keeps m km db h = finish-Keeps db (m db).1 (m db).0 h (km db h)
