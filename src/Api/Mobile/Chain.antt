-- ===== src/Api/Mobile/Chain.antt =====
-- The audit chain follows the events that are stored.
use sigis_backend.Base.{ℕ, ◌≡◌, Option, none, some, List, [], ◌∷◌, map, Text}
use sigis_backend.Base.Uuid.{uuid_text}
use sigis_backend.Time.{Datetime}
use sigis_backend.Errors.{Result}
use sigis_backend.Domain.MobileEvents.{MobileEvent}
use sigis_backend.Store.{Db, AuditChainEntry, transaction}
use sigis_backend.Api.Mobile.{MobileEventIn, MobileEventResult, chained_text, ingest_events_batch}

-- What an entry says: the hash before it, its own, and the event.
abbrev pub Link : Type 0
Link = Option Text × Text × Option Text

abbrev pub link_of : AuditChainEntry → Link
link_of x = (x.prev_hash, x.entry_hash, x.resource_id)

module _ (digest : Text → Text) where
  abbrev hash_after : Option Text → MobileEvent → Text
  hash_after prev r = digest (chained_text prev r.event_hash)

  -- The chain that the events call for.
  abbrev pub links : Option Text → List MobileEvent → List Link
  links prev [] = []
  links prev (r ∷ rs) =
      (prev, hash_after prev r, some (uuid_text r.id)) ∷ links (some (hash_after prev r)) rs

  abbrev last_hash : Option Text → List MobileEvent → Option Text
  last_hash prev [] = prev
  last_hash prev (r ∷ rs) = last_hash (some (hash_after prev r)) rs

  abbrev pub IsLinked : Db → Type 0
  IsLinked db = map link_of db.audit_chain ≡ links none db.mobile_events

  -- The loop carries the last hash.
  record Follows (db : Db) (prev : Option Text) : Type 0 where
    pub linked : IsLinked db
    pub carried : prev ≡ last_hash none db.mobile_events

  -- A batch: the user, the clock, and the events with the UUIDs that are drawn for them.
  pub record Batch : Type 0 where
    pub user : ℕ
    pub now : Datetime
    pub events : List (ℕ × MobileEventIn)

  abbrev pub serve_batch : Batch → Db → Result (List MobileEventResult) × Db
  serve_batch b = transaction (ingest_events_batch digest b.user b.now b.events)

  unfoldable pub serve_batches : List Batch → Db → Db
  serve_batches [] db = db
  serve_batches (b ∷ bs) db = serve_batches bs (serve_batch b db).1
