-- ===== src/Safety/Moves.antt =====
-- How a mission may change (application/use_cases/create_mission.py and mission_workflow.py).
pub mod Served
use mathlib.Core.Path.{subst}
use sigis_backend.Base.{
  ℕ, ◌≡◌, ◌≢◌, refl, sym, Option, none, some, is_some, List, [], ◌∷◌, Text, ◌==◌, inl, inr, ◌⊎◌,
  Option-cases, Bool-cases, if◌then◌else◌, arith, take, true, false,
}
use sigis_backend.Base.Table.{get, put, get-put, key_of_get}
use sigis_backend.Time.{Datetime}
use sigis_backend.Errors.{Result, ok, err}
use sigis_backend.Domain.Mission.{Mission, MissionStatus}
use sigis_backend.Store.{Db, Exec, Payload, Scope, transaction, ◌>>=◌}
use sigis_backend.Store.Missions.{get_mission, merge_token, save_mission}
use sigis_backend.Store.Reports.{get_outcome_by_mission, save_outcome, add_exception}
use sigis_backend.UseCases.CheckIn.{check_in, check_in_fresh}
use sigis_backend.UseCases.ConfirmHost.{confirm_host, confirm_fresh}
use sigis_backend.UseCases.CheckOut.{check_out_visit, check_out_fresh}
use sigis_backend.UseCases.Missions.{
  CreateMissionCommand, SubmitMissionOutcomeCommand, require_user, new_mission, create_mission,
  approve_mission, cancel, cancel_mission, submit_outcome, reassigned, reassign_reason,
  reassign_inspector, create_exception,
}
use sigis_backend.Safety.Rollback.{replayed_keeps, transaction_keeps}
use sigis_backend.Safety.Plans.{check_in-SamePlans, check_out-SamePlans, confirm-SamePlans}
use sigis_backend.Safety.Requests.{
  Request, arrive, confirm, leave, plan, approve, report, reassign, signal, serve, serve_all,
}

-- A status moves by an approval, or by a cancellation (a second cancellation included).
pub data Move : MissionStatus → MissionStatus → Type 0 where
  approved : Move MissionStatus.draft MissionStatus.planned
  called_off : {s : MissionStatus} → s ≢ MissionStatus.completed → Move s MissionStatus.cancelled

pub data Moves : MissionStatus → MissionStatus → Type 0 where
  stay : {s : MissionStatus} → Moves s s
  step : {s t u : MissionStatus} → Move s t → Moves t u → Moves s u

pub Moves-trans : {s t u : MissionStatus} → Moves s t → Moves t u → Moves s u
Moves-trans stay n = n
Moves-trans (step x m) n = step x (Moves-trans m n)

-- What a mission keeps, and how its status moved.
pub record Kept (m m' : Mission) : Type 0 where
  pub id : m'.id ≡ m.id
  pub establishment_id : m'.establishment_id ≡ m.establishment_id
  pub inspector_id : m'.inspector_id ≡ m.inspector_id
  pub window_start : m'.window_start ≡ m.window_start
  pub window_end : m'.window_end ≡ m.window_end
  pub host_token : m'.host_token ≡ m.host_token
  pub sms_code : m'.sms_code ≡ m.sms_code
  pub designated_host_user_id : m'.designated_host_user_id ≡ m.designated_host_user_id
  pub previous_mission_id : m'.previous_mission_id ≡ m.previous_mission_id
  pub moves : Moves m.status m'.status

pub Kept-refl : (m : Mission) → Kept m m
Kept-refl m = record {
  id = refl;
  establishment_id = refl;
  inspector_id = refl;
  window_start = refl;
  window_end = refl;
  host_token = refl;
  sms_code = refl;
  designated_host_user_id = refl;
  previous_mission_id = refl;
  moves = stay;
}

pub Kept-trans : (a b c : Mission) → Kept a b → Kept b c → Kept a c
Kept-trans a b c p q = record {
  id = rw (q.id, p.id);
  establishment_id = rw (q.establishment_id, p.establishment_id);
  inspector_id = rw (q.inspector_id, p.inspector_id);
  window_start = rw (q.window_start, p.window_start);
  window_end = rw (q.window_end, p.window_end);
  host_token = rw (q.host_token, p.host_token);
  sms_code = rw (q.sms_code, p.sms_code);
  designated_host_user_id = rw (q.designated_host_user_id, p.designated_host_user_id);
  previous_mission_id = rw (q.previous_mission_id, p.previous_mission_id);
  moves = Moves-trans p.moves q.moves;
}

-- The mission `j`, which was `m`, is still stored.
pub record Goes (j : ℕ) (m : Mission) (db : Db) : Type 0 where
  pub now : Mission
  pub found : get_mission j db ≡ some now
  pub kept : Kept m now

pub Goes-refl : (j : ℕ) (m : Mission) (db : Db) → get_mission j db ≡ some m → Goes j m db
Goes-refl j m db h = record { now = m; found = h; kept = Kept-refl m }

pub Goes-trans :
    (j : ℕ) (m : Mission) (b c : Db)
    → Goes j m b
    → ((n : Mission) → get_mission j b ≡ some n → Goes j n c)
    → Goes j m c
Goes-trans j m b c g next =
    let h = next g.now g.found in
    record { now = h.now; found = h.found; kept = Kept-trans m g.now h.now g.kept h.kept }

-- Only the table of missions matters.
pub Goes-same : (j : ℕ) (m : Mission) (a b : Db) → b.missions ≡ a.missions → Goes j m a → Goes j m b
unfolding get_mission
Goes-same j m a b e g = record { now = g.now; found = rw e g.found; kept = g.kept }

abbrev pub mission_id : Mission → ℕ
mission_id m = m.id

pub id_of_found : (j : ℕ) (m : Mission) (db : Db) → get_mission j db ≡ some m → m.id ≡ j
unfolding get_mission
id_of_found j m db h = key_of_get mission_id j db.missions h

pub stored_under :
    (j : ℕ) (m : Mission) (db : Db) → get_mission j db ≡ some m → get_mission m.id db ≡ some m
stored_under j m db h = subst (λ i. get_mission i db ≡ some m) (sym (id_of_found j m db h)) h

-- Saving over a stored mission.
pub get-save_stored :
    (j : ℕ) (m row : Mission) (db : Db)
    → get_mission m.id db ≡ some row
    → get_mission j (save_mission m db).1 ≡ (
        if m.id == j
        then some (record m { host_token = merge_token m.host_token row.host_token })
        else get_mission j db)
unfolding get_mission save_mission
get-save_stored j m row db h = rw h (
    get-put mission_id j (record m { host_token = merge_token m.host_token row.host_token })
      db.missions)

-- Saving a mission with a new id.
get-save_new :
    (j : ℕ) (m : Mission) (db : Db)
    → get_mission m.id db ≡ none
    → get_mission j (save_mission m db).1 ≡ (
        if is_some m.host_token
        then (if m.id == j then some m else get_mission j db)
        else get_mission j db)
unfolding get_mission save_mission
get-save_new j m db h = rw h (ground (arith, get-put mission_id j m db.missions))

merge_same : (t : Option ℕ) → merge_token t t ≡ t
merge_same none = refl
merge_same (some x) = refl

-- A stored mission that is changed and saved.
pub saved-Goes :
    (j : ℕ) (m old : Mission) (next : Mission) (db : Db)
    → get_mission j db ≡ some m
    → get_mission next.id db ≡ some old
    → Kept old next
    → Goes j m (save_mission next db).1
saved-Goes j m old next db found stored kept = elim (Bool-cases (next.id == j)) [
  | inl same ↦
      let e : old ≡ m = ground (arith, same, found, stored) in
      record {
        now = next;
        found =
            rw
              (
                get-save_stored j next old db stored,
                same,
                kept.host_token,
                merge_same old.host_token,
              )
              (ground (arith, kept.host_token));
        kept = subst (λ x. Kept x next) e kept;
      }
  | inr other ↦ record {
    now = m;
    found = rw (get-save_stored j next old db stored, other) found;
    kept = Kept-refl m;
  }
]

-- Another mission that is saved.
pub other-Goes :
    (j : ℕ) (m old next : Mission) (db : Db)
    → get_mission j db ≡ some m
    → get_mission next.id db ≡ some old
    → next.id ≢ j
    → Goes j m (save_mission next db).1
other-Goes j m old next db found stored other = record {
  now = m;
  found = ground (arith, get-save_stored j next old db stored, found, other);
  kept = Kept-refl m;
}

pub fresh-Goes :
    (j : ℕ) (m new : Mission) (db : Db)
    → get_mission j db ≡ some m
    → get_mission new.id db ≡ none
    → Goes j m (save_mission new db).1
fresh-Goes j m new db found fresh = record {
  now = m;
  found = rw (get-save_new j new db fresh) (ground (arith, found, fresh));
  kept = Kept-refl m;
}
