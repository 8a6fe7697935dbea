-- ===== src/Store/Binds.antt =====
-- Success of a sequence of steps, step by step.
use sigis_backend.Base.{◌≡◌, refl, arith}
use sigis_backend.Errors.{Result, ok, err}
use sigis_backend.Store.Tables.{Db}
use sigis_backend.Store.Session.{Exec, ◌>>=◌}

-- The first step of a sequence that succeeds has succeeded, and the rest runs from its state.
pub record Step {A B : Type 0} (m : Exec A) (f : A → Exec B) (db : Db) : Type 0 where
  pub result : A
  pub first : (m db).0 ≡ ok result
  pub rest : (m >>= f) db ≡ f result (m db).1

Step-of :
    {A B : Type 0} (f : A → Exec B) (db : Db) (m : Exec A) (r : Result A) (b : B)
    → (m db).0 ≡ r
    → ((m >>= f) db).0 ≡ ok b
    → Step m f db
Step-of f db m (ok a) b e h = record { result = a; first = e; rest = rw e }
Step-of f db m (err x) b e h = absurd (ground arith)

pub >>=-Step :
    {A B : Type 0} (m : Exec A) (f : A → Exec B) (db : Db) (b : B)
    → ((m >>= f) db).0 ≡ ok b
    → Step m f db
>>=-Step m f db b h = Step-of f db m (m db).0 b refl h
