-- ===== src/Safety/Invariant.antt =====
-- The invariant of the visit tables: the unique constraints of models.py, visits whose fields
-- follow their status, and the rows of evidence behind each status.
use mathlib.Core.Path.{subst}
use sigis_backend.Base.{
  ℕ, ◌≡◌, refl, sym, ap, ◌∙◌, Bool, true, false, Option, none, some, List, [], ◌∷◌, ◌++◌, inl, inr,
  ◌==◌, is_some, Bool-cases, arith,
}
use sigis_backend.Base.Table.{get, first, first-append}
use sigis_backend.Domain.Visit.{SiteVisit, SiteVisitStatus}
use sigis_backend.Domain.Visit.Lifecycle.{IsCoherent}
use sigis_backend.Domain.Presence.{PresenceProof}
use sigis_backend.Store.{Db, CoPresenceRow}
use sigis_backend.Store.Visits.{get_visit, save_visit, row_to_write}
use sigis_backend.Store.Visits.Saved.{
  IsKeyed, id-row_to_write, visit_id, visit_mission, save_visit-IsKeyed, get_visit-save_visit,
}
use sigis_backend.Store.Idempotency.Keys.{UniqueKeys}

-- The visit has left the scheduled state.
abbrev pub is_begun : SiteVisitStatus → Bool
is_begun SiteVisitStatus.scheduled = false
is_begun SiteVisitStatus.checked_in = true
is_begun SiteVisitStatus.pending_host = true
is_begun SiteVisitStatus.copresence_ok = true
is_begun SiteVisitStatus.checked_out = true
is_begun SiteVisitStatus.completed = true
is_begun SiteVisitStatus.cancelled = true

-- A host has confirmed the visit.
abbrev pub is_validated : SiteVisitStatus → Bool
is_validated SiteVisitStatus.scheduled = false
is_validated SiteVisitStatus.checked_in = false
is_validated SiteVisitStatus.pending_host = false
is_validated SiteVisitStatus.copresence_ok = true
is_validated SiteVisitStatus.checked_out = true
is_validated SiteVisitStatus.completed = true
is_validated SiteVisitStatus.cancelled = false

-- A row of the table is about the visit.
abbrev pub has_proof : ℕ → List PresenceProof → Bool
has_proof vid proofs = is_some (first (λ (p : PresenceProof). p.site_visit_id == vid) proofs)

abbrev pub has_event : ℕ → List CoPresenceRow → Bool
has_event vid events = is_some (first (λ (r : CoPresenceRow). r.event.site_visit_id == vid) events)

pub has_proof-append :
    (vid : ℕ) (ps : List PresenceProof) (p : PresenceProof)
    → (has_proof vid ps ≡ true → has_proof vid (ps ++ p ∷ []) ≡ true)
      × (p.site_visit_id ≡ vid → has_proof vid (ps ++ p ∷ []) ≡ true)
unfolding first
has_proof-append vid ps p =
    rw (first-append (λ (p : PresenceProof). p.site_visit_id == vid) ps (p ∷ []))
      (ground arith, ground arith)

pub has_event-append :
    (vid : ℕ) (es : List CoPresenceRow) (r : CoPresenceRow)
    → (has_event vid es ≡ true → has_event vid (es ++ r ∷ []) ≡ true)
      × (r.event.site_visit_id ≡ vid → has_event vid (es ++ r ∷ []) ≡ true)
unfolding first
has_event-append vid es r =
    rw (first-append (λ (r : CoPresenceRow). r.event.site_visit_id == vid) es (r ∷ []))
      (ground arith, ground arith)

-- A visit with its evidence in the tables.
pub record IsEvident (v : SiteVisit) (db : Db) : Type 0 where
  pub coherent : IsCoherent v
  pub proof : is_begun v.status ≡ true → has_proof v.id db.presence_proofs ≡ true
  pub event : is_validated v.status ≡ true → has_event v.id db.copresence_events ≡ true

pub record IsSound (db : Db) : Type 0 where
  pub keyed : IsKeyed db
  pub keys : UniqueKeys db.idempotency
  pub visit : (j : ℕ) (v : SiteVisit) → get_visit j db ≡ some v → IsEvident v db

-- The rows of evidence of `a` are still there in `b`.
pub record Keeps (a b : Db) : Type 0 where
  pub proofs : (i : ℕ) → has_proof i a.presence_proofs ≡ true → has_proof i b.presence_proofs ≡ true
  pub events :
      (i : ℕ) → has_event i a.copresence_events ≡ true → has_event i b.copresence_events ≡ true

IsEvident-Keeps : {a b : Db} (v : SiteVisit) → Keeps a b → IsEvident v a → IsEvident v b
IsEvident-Keeps v k e = record {
  coherent = e.coherent;
  proof = λ h. k.proofs v.id (e.proof h);
  event = λ h. k.events v.id (e.event h);
}

get_visit_of : (a b : Db) (j : ℕ) → a.site_visits ≡ b.site_visits → get_visit j a ≡ get_visit j b
unfolding get_visit
get_visit_of a b j e = ap (get visit_id j) e

-- A request that leaves the visits alone.
pub same_visits-IsSound :
    (a b : Db)
    → IsSound a
    → b.site_visits ≡ a.site_visits
    → UniqueKeys b.idempotency
    → Keeps a b
    → IsSound b
unfolding get_visit
same_visits-IsSound a b s e u k = record {
  keyed = record { ids = rw e s.keyed.ids; missions = rw e s.keyed.missions };
  keys = u;
  visit = λ j v h. IsEvident-Keeps v k (s.visit j v (rw e at h));
}

-- The row that is written for a visit has its status, its times and its id.
row-IsCoherent :
    (w : SiteVisit) (o : Option SiteVisit) → IsCoherent w → IsCoherent (row_to_write w o)
unfolding row_to_write
row-IsCoherent w none c = c
row-IsCoherent w (some row) c = ground arith

row_status : (w : SiteVisit) (o : Option SiteVisit) → (row_to_write w o).status ≡ w.status
unfolding row_to_write
row_status w none = refl
row_status w (some row) = refl

row-IsEvident :
    (w : SiteVisit) (a b : Db) → IsEvident w b → IsEvident (row_to_write w (get_visit w.id a)) b
row-IsEvident w a b ev =
    let o = get_visit w.id a in
    record {
      coherent = row-IsCoherent w o ev.coherent;
      proof = rw (row_status w o, id-row_to_write w a) ev.proof;
      event = rw (row_status w o, id-row_to_write w a) ev.event;
    }

-- A request that saves one visit, on which the evidence of its new status is there.
pub saved_visit-IsSound :
    (w : SiteVisit) (a b : Db)
    → IsSound a
    → (get_visit w.id a ≡ none → get visit_mission w.mission_id a.site_visits ≡ none)
    → b.site_visits ≡ (save_visit w a).1.site_visits
    → UniqueKeys b.idempotency
    → Keeps a b
    → IsEvident w b
    → IsSound b
saved_visit-IsSound w a b s n e u k ev =
    let saved = save_visit-IsKeyed w a s.keyed n in
    record {
      keyed = record { ids = rw e saved.ids; missions = rw e saved.missions };
      keys = u;
      visit = λ j v h.
          let found = sym (get_visit_of b (save_visit w a).1 j e) ∙ h in
          elim (Bool-cases (w.id == j)) [
            | inl same ↦
                let it_is : row_to_write w (get_visit w.id a) ≡ v =
                  ground (arith, found, get_visit-save_visit w j a) in
                subst (λ x. IsEvident x b) it_is (row-IsEvident w a b ev)
            | inr other ↦
                IsEvident-Keeps v k
                  (s.visit j v (ground (arith, found, get_visit-save_visit w j a)))
          ];
    }
