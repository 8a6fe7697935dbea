-- ===== src/Safety/Moves/Served.antt =====
-- Every request moves a mission only as the life of a mission allows.
use sigis_backend.Base.{
  ℕ, ◌≡◌, ◌≢◌, refl, none, some, List, [], ◌∷◌, Text, inl, inr, Option-cases, arith, take, false,
}
use sigis_backend.Time.{Datetime}
use sigis_backend.Errors.{ok, Result-cases}
use sigis_backend.Api.Missions.{UpdateMissionBody, new_status, patched, patch_mission}
use sigis_backend.Domain.Mission.{is_completed, is_closed, Mission, MissionStatus}
use sigis_backend.Store.{Db, Exec, Scope, transaction}
use sigis_backend.Store.Missions.{get_mission, save_mission}
use sigis_backend.Store.Reports.{get_outcome_by_mission, save_outcome, add_exception}
use sigis_backend.UseCases.CheckIn.{check_in, check_in_fresh}
use sigis_backend.UseCases.ConfirmHost.{confirm_host, confirm_fresh}
use sigis_backend.UseCases.CheckOut.{check_out_visit, check_out_fresh}
use sigis_backend.UseCases.Missions.{
  CreateMissionCommand, SubmitMissionOutcomeCommand, require_user, new_mission, create_mission,
  approve_mission, cancel, cancel_mission, submit_outcome, reassigned, reassign_reason,
  reassign_inspector, create_exception,
}
use sigis_backend.Safety.Rollback.{replayed_keeps, transaction_keeps}
use sigis_backend.Safety.Plans.{check_in-SamePlans, check_out-SamePlans, confirm-SamePlans}
use sigis_backend.Safety.Requests.{
  Request, arrive, confirm, leave, plan, approve, report, reassign, signal, patch, serve, serve_all,
}
use sigis_backend.Safety.Moves.{
  stay, step, approved, called_off, Kept, Goes, Goes-refl, Goes-trans, Goes-same, stored_under,
  get-save_stored, saved-Goes, fresh-Goes, other-Goes, id_of_found,
}

-- What a request asks of the UUIDs that it draws: a new mission gets an id that is not in use.
-- And the route `update_mission` is called for other missions than `j`.
abbrev pub IsFresh : ℕ → Request → Db → Type 0
IsFresh j (plan cmd mid token) db = get_mission mid db ≡ none
IsFresh j (reassign mid inspector actor now new_id token) db = get_mission new_id db ≡ none
IsFresh j (patch mid body) db = mid ≢ j
IsFresh j _ db = Unit

abbrev pub AllFresh : ℕ → List Request → Db → Type 0
AllFresh j [] db = Unit
AllFresh j (r ∷ rs) db = IsFresh j r db × AllFresh j rs (serve r db)

saved_ok :
    (db : Db) (old next : Mission)
    → get_mission next.id db ≡ some old
    → (save_mission next db).0 ≡ ok tt
unfolding save_mission
saved_ok db old next stored = rw stored

module _ (j : ℕ) (m : Mission) (db : Db) (found : get_mission j db ≡ some m) where
  approve-Goes :
      (mid : ℕ) (a : Mission)
      → (approve_mission mid db).0 ≡ ok a
      → Goes j m (approve_mission mid db).1
  unfolding approve_mission
  approve-Goes mid a h = elim (Option-cases (get_mission mid db)) [
    | inl missing ↦ absurd (ground (arith, h, missing))
    | inr (old, e) ↦
        let draft : old.status ≡ MissionStatus.draft = ground (arith, h, e) in
        rw
          (
            e,
            draft,
            saved_ok db old (record old { status = MissionStatus.planned })
                (stored_under mid old db e),
          )
          (saved-Goes j m old (record old { status = MissionStatus.planned }) db found
            (stored_under mid old db e)
            (record {
              id = refl;
              establishment_id = refl;
              inspector_id = refl;
              window_start = refl;
              window_end = refl;
              host_token = refl;
              sms_code = refl;
              designated_host_user_id = refl;
              previous_mission_id = refl;
              moves = rw draft (step approved stay);
            }))
  ]

cancel-Kept :
    (old : Mission) (reason : Text) (now : Datetime) (by_user : ℕ)
    → old.status ≢ MissionStatus.completed
    → Kept old (cancel old reason now by_user)
unfolding cancel
cancel-Kept old reason now by_user open_still = record {
  id = refl;
  establishment_id = refl;
  inspector_id = refl;
  window_start = refl;
  window_end = refl;
  host_token = refl;
  sms_code = refl;
  designated_host_user_id = refl;
  previous_mission_id = refl;
  moves = step (called_off open_still) stay;
}

id-cancel :
    (old : Mission) (reason : Text) (now : Datetime) (by_user : ℕ)
    → (cancel old reason now by_user).id ≡ old.id
unfolding cancel
id-cancel old reason now by_user = refl

module _ (j : ℕ) (m : Mission) (db : Db) (found : get_mission j db ≡ some m) where
  cancel-Goes :
      (mid : ℕ) (reason : Text) (by_user : ℕ) (now : Datetime) (a : Mission)
      → (cancel_mission mid reason by_user now db).0 ≡ ok a
      → Goes j m (cancel_mission mid reason by_user now db).1
  unfolding cancel_mission
  cancel-Goes mid reason by_user now a h = elim (Option-cases (get_mission mid db)) [
    | inl missing ↦ absurd (ground (arith, h, missing))
    | inr (old, e) ↦
        let open_still : is_completed old.status ≡ false = ground (arith, h, e) in
        rw
          (
            e,
            open_still,
            saved_ok db old (cancel old (take 4000 reason) now by_user)
                (rw (id-cancel old (take 4000 reason) now by_user) (stored_under mid old db e)),
          )
          (saved-Goes j m old (cancel old (take 4000 reason) now by_user) db found
            (rw (id-cancel old (take 4000 reason) now by_user) (stored_under mid old db e))
            (cancel-Kept old (take 4000 reason) now by_user (ground (arith, open_still))))
  ]

  create-Goes :
      (cmd : CreateMissionCommand) (mid token : ℕ) (a : Mission)
      → get_mission mid db ≡ none
      → (create_mission cmd mid token db).0 ≡ ok a
      → Goes j m (create_mission cmd mid token db).1
  unfolding create_mission require_user new_mission
  create-Goes cmd mid token a fresh h =
      let g = fresh-Goes j m (new_mission cmd mid token) db found fresh in ground (arith, h, g)

  after_cancel :
      (old : Mission) (now : Datetime) (actor new_id : ℕ)
      → get_mission old.id db ≡ some old
      → get_mission new_id db ≡ none
      → get_mission new_id (save_mission (cancel old reassign_reason now actor) db).1 ≡ none
  unfolding cancel
  after_cancel old now actor new_id stored fresh =
      rw (get-save_stored new_id (cancel old reassign_reason now actor) old db stored)
        (ground (arith, stored, fresh))

  replace-Goes :
      (old : Mission) (now : Datetime) (actor inspector new_id token : ℕ)
      → is_closed old.status ≡ false
      → get_mission old.id db ≡ some old
      → get_mission new_id db ≡ none
      → Goes j m
          (save_mission
            (reassigned old inspector new_id token)
            (save_mission (cancel old reassign_reason now actor) db).1).1
  unfolding reassigned
  replace-Goes old now actor inspector new_id token open_still stored fresh =
      let mid_db = (save_mission (cancel old reassign_reason now actor) db).1 in
      Goes-trans j m mid_db (save_mission (reassigned old inspector new_id token) mid_db).1
        (saved-Goes j m old (cancel old reassign_reason now actor) db found
          (rw (id-cancel old reassign_reason now actor) stored)
          (cancel-Kept old reassign_reason now actor (ground (arith, open_still))))
        (λ n h.
          fresh-Goes j n (reassigned old inspector new_id token) mid_db h
            (after_cancel old now actor new_id stored fresh))

  reassign-Goes :
      (mid inspector actor : ℕ) (now : Datetime) (new_id token : ℕ) (a : Mission)
      → get_mission new_id db ≡ none
      → (reassign_inspector mid inspector actor now new_id token db).0 ≡ ok a
      → Goes j m (reassign_inspector mid inspector actor now new_id token db).1
  unfolding reassign_inspector require_user
  reassign-Goes mid inspector actor now new_id token a fresh h =
      elim (Option-cases (get_mission mid db)) [
        | inl missing ↦ absurd (ground (arith, h, missing))
        | inr (old, e) ↦
            let open_still : is_closed old.status ≡ false = ground (arith, h, e) in
            let stored = stored_under mid old db e in
            let g = replace-Goes old now actor inspector new_id token open_still stored fresh in
            let s =
              saved_ok db old (cancel old reassign_reason now actor)
                (rw (id-cancel old reassign_reason now actor) stored) in
            ground (arith, h, e, g, open_still, s)
      ]

  same_missions :
      {A : Type 0} (x : Exec A) → (x db).1.missions ≡ db.missions → Goes j m (transaction x db).1
  same_missions x e =
      transaction_keeps (Goes j m) x db (Goes-refl j m db found)
        λ a h. Goes-same j m db (x db).1 e (Goes-refl j m db found)

  submit_missions :
      (cmd : SubmitMissionOutcomeCommand) (oid : ℕ) (now : Datetime)
      → (submit_outcome cmd oid now db).1.missions ≡ db.missions
  unfolding submit_outcome get_outcome_by_mission save_outcome
  submit_missions cmd oid now = ground arith

  signal_missions :
      (mid author : ℕ) (message : Text) (xid : ℕ) (now : Datetime)
      → (create_exception mid author message xid now db).1.missions ≡ db.missions
  unfolding create_exception add_exception
  signal_missions mid author message xid now = ground arith

  patched_own :
      (mid : ℕ) (old : Mission) (body : UpdateMissionBody) (s : MissionStatus)
      → get_mission mid db ≡ some old
      → get_mission (patched body s old).id db ≡ some old
  unfolding patched
  patched_own mid old body s e = stored_under mid old db e

  patched_other :
      (mid : ℕ) (old : Mission) (body : UpdateMissionBody) (s : MissionStatus)
      → get_mission mid db ≡ some old
      → mid ≢ j
      → (patched body s old).id ≢ j
  unfolding patched
  patched_other mid old body s e other = rw (id_of_found mid old db e) other

  patch-Goes :
      (mid : ℕ) (body : UpdateMissionBody) (a : Mission)
      → mid ≢ j
      → (patch_mission mid body db).0 ≡ ok a
      → Goes j m (patch_mission mid body db).1
  unfolding patch_mission
  patch-Goes mid body a other h = elim (Option-cases (get_mission mid db)) [
    | inl missing ↦ absurd (ground (arith, h, missing))
    | inr (old, e) ↦ elim (Result-cases (new_status body.status old.status)) [
      | inr (failure, refused) ↦ absurd (ground (arith, h, e, refused))
      | inl (s, known) ↦
          rw (e, known)
            (let own : get_mission (patched body s old).id db ≡ some old =
                patched_own mid old body s e in
              let saved = saved_ok db old (patched body s old) own in
              rw saved (
                other-Goes j m old (patched body s old) db found own
                  (patched_other mid old body s e other)))
    ]
  ]

  serve-Goes : (r : Request) → IsFresh j r db → Goes j m (serve r db)
  unfolding serve check_in confirm_host check_out_visit
  serve-Goes (arrive fl cmd draw) fresh =
      replayed_keeps (Goes j m) (Scope.check_in cmd.mission_id) cmd.client_request_id
        (check_in_fresh fl cmd draw) db (Goes-refl j m db found)
        λ p e h.
          Goes-same j m db (check_in_fresh fl cmd draw db).1
            (check_in-SamePlans fl cmd draw db p h).missions (Goes-refl j m db found)
  serve-Goes (confirm w cmd) fresh =
      replayed_keeps (Goes j m) (Scope.confirm_host cmd.site_visit_id) cmd.client_request_id
        (confirm_fresh w cmd) db (Goes-refl j m db found)
        λ p e h.
          Goes-same j m db (confirm_fresh w cmd db).1 (confirm-SamePlans w cmd db p h).missions
            (Goes-refl j m db found)
  serve-Goes (leave cmd now) fresh =
      replayed_keeps (Goes j m) (Scope.check_out cmd.site_visit_id) cmd.client_request_id
        (check_out_fresh cmd now) db (Goes-refl j m db found)
        λ p e h.
          Goes-same j m db (check_out_fresh cmd now db).1
            (check_out-SamePlans cmd now db p h).missions (Goes-refl j m db found)
  serve-Goes (plan cmd mid token) fresh =
      transaction_keeps (Goes j m) (create_mission cmd mid token) db (Goes-refl j m db found)
        λ a. create-Goes cmd mid token a fresh
  serve-Goes (approve mid) fresh =
      transaction_keeps (Goes j m) (approve_mission mid) db (Goes-refl j m db found)
        (approve-Goes j m db found mid)
  serve-Goes (Request.cancel mid reason by_user now) fresh =
      transaction_keeps (Goes j m) (cancel_mission mid reason by_user now) db
        (Goes-refl j m db found) (cancel-Goes mid reason by_user now)
  serve-Goes (report cmd oid now) fresh =
      same_missions (submit_outcome cmd oid now) (submit_missions cmd oid now)
  serve-Goes (reassign mid inspector actor now new_id token) fresh =
      transaction_keeps (Goes j m) (reassign_inspector mid inspector actor now new_id token) db
        (Goes-refl j m db found) λ a. reassign-Goes mid inspector actor now new_id token a fresh
  serve-Goes (signal mid author message xid now) fresh =
      same_missions (create_exception mid author message xid now)
        (signal_missions mid author message xid now)
  serve-Goes (patch mid body) other =
      transaction_keeps (Goes j m) (patch_mission mid body) db (Goes-refl j m db found)
        λ a. patch-Goes mid body a other

-- After any requests that draw unused ids for new missions and among which no call of the route
-- `update_mission` is for this mission, a stored mission is still stored, with the same
-- establishment, inspector, window, tokens and designated host, and its status has moved only by
-- an approval of a draft and by cancellations of what is not completed.
pub mission_life :
    (rs : List Request) (j : ℕ) (m : Mission) (db : Db)
    → get_mission j db ≡ some m
    → AllFresh j rs db
    → Goes j m (serve_all rs db)
unfolding serve_all
mission_life [] j m db found fresh = Goes-refl j m db found
mission_life (r ∷ rs) j m db found fresh =
    Goes-trans j m (serve r db) (serve_all rs (serve r db)) (serve-Goes j m db found r fresh.0)
      λ n h. mission_life rs j n (serve r db) h fresh.1
