-- ===== src/Safety/Replay.antt =====
-- A client may send a request again, with the same key, at any later time.
use mathlib.Core.Path.{subst}
use sigis_backend.Base.{◌≡◌, ap, List, [], ◌∷◌, Text, Option, none, some, arith}
use sigis_backend.Base.Float.{FloatOps}
use sigis_backend.Errors.{Result, ok}
use sigis_backend.Time.{Datetime}
use sigis_backend.Api.Missions.{patch_mission}
use sigis_backend.Store.{Db, Exec, Scope, Payload, transaction}
use sigis_backend.Store.Binds.{>>=-Step}
use sigis_backend.Store.Idempotency.{get_response, save_response}
use sigis_backend.Store.Idempotency.Keys.{get_response-save_response, get_response-save_other}
use sigis_backend.UseCases.CheckIn.{
  CheckInInspectorCommand, CheckInDraw, replay_or, check_in, check_in_fresh,
}
use sigis_backend.UseCases.ConfirmHost.{
  ConfirmWorld, ConfirmHostCommand, confirm_host, confirm_fresh,
}
use sigis_backend.UseCases.CheckOut.{CheckOutCommand, check_out_visit, check_out_fresh}
use sigis_backend.UseCases.Missions.{
  create_mission, approve_mission, cancel_mission, submit_outcome, reassign_inspector,
  create_exception,
}
use sigis_backend.Safety.Rollback.{replayed, replayed_keeps, transaction_keeps, response_same}
use sigis_backend.Safety.Missions.{
  SameEvidence, create_mission-SameEvidence, approve_mission-SameEvidence,
  patch_mission-SameEvidence, cancel_mission-SameEvidence, submit_outcome-SameEvidence,
  reassign_inspector-SameEvidence, create_exception-SameEvidence,
}
use sigis_backend.Safety.Answers.{Stores, check_in-Stores, confirm-Stores, check_out-Stores}
use sigis_backend.Safety.Requests.{
  Request, arrive, confirm, leave, plan, approve, cancel, report, reassign, signal, patch, serve,
  serve_all,
}

-- The answer to a key, if one is stored.
abbrev pub Holds : Scope → Text → Payload → Db → Type 0
Holds s k p db = (get_response s k db).0 ≡ ok (some p)

-- Only the table of stored answers matters.
Holds-same :
    (s : Scope) (k : Text) (p : Payload) (a b : Db)
    → b.idempotency ≡ a.idempotency
    → Holds s k p a
    → Holds s k p b
unfolding get_response
Holds-same s k p a b e h = rw e h

-- A stored answer stays when another operation stores its own.
fresh-Holds :
    (s s' : Scope) (k k' : Text) (q p : Payload) (fresh : Exec Payload) (db : Db)
    → Stores s k fresh db
    → (get_response s k db).0 ≡ ok none
    → (fresh db).0 ≡ ok p
    → Holds s' k' q db
    → Holds s' k' q (fresh db).1
fresh-Holds s s' k k' q p fresh db st none_yet h held =
    let (now, e) = st.at p h in
    Holds-same s' k' q (save_response s k now p db).1 (fresh db).1 e
      (get_response-save_other s s' k k' now p q db none_yet held)

module _ (s' : Scope) (k' : Text) (q : Payload) where
  visit-Holds :
      (s : Scope) (k : Text) (fresh : Exec Payload) (db : Db)
      → Stores s k fresh db
      → Holds s' k' q db
      → Holds s' k' q (transaction (replayed s k fresh) db).1
  visit-Holds s k fresh db st held =
      replayed_keeps (Holds s' k' q) s k fresh db held
        λ p none_yet h. fresh-Holds s s' k k' q p fresh db st none_yet h held

  mission-Holds :
      {A : Type 0} (m : Exec A) (db : Db)
      → SameEvidence db (m db).1
      → Holds s' k' q db
      → Holds s' k' q (transaction m db).1
  mission-Holds m db e held =
      transaction_keeps (Holds s' k' q) m db held
        λ a h. Holds-same s' k' q db (m db).1 e.idempotency held

  serve-Holds : (r : Request) (db : Db) → Holds s' k' q db → Holds s' k' q (serve r db)
  unfolding serve check_in confirm_host check_out_visit
  serve-Holds (arrive fl cmd draw) db held =
      visit-Holds (Scope.check_in cmd.mission_id) cmd.client_request_id (check_in_fresh fl cmd draw)
        db (check_in-Stores fl cmd draw db) held
  serve-Holds (confirm w cmd) db held =
      visit-Holds (Scope.confirm_host cmd.site_visit_id) cmd.client_request_id (confirm_fresh w cmd)
        db (confirm-Stores w cmd db) held
  serve-Holds (leave cmd now) db held =
      visit-Holds (Scope.check_out cmd.site_visit_id) cmd.client_request_id
        (check_out_fresh cmd now) db (check_out-Stores cmd now db) held
  serve-Holds (plan cmd mid token) db held =
      mission-Holds (create_mission cmd mid token) db (create_mission-SameEvidence db cmd mid token)
        held
  serve-Holds (approve mid) db held =
      mission-Holds (approve_mission mid) db (approve_mission-SameEvidence db mid) held
  serve-Holds (cancel mid reason by_user now) db held =
      mission-Holds (cancel_mission mid reason by_user now) db
        (cancel_mission-SameEvidence db mid reason by_user now) held
  serve-Holds (report cmd oid now) db held =
      mission-Holds (submit_outcome cmd oid now) db (submit_outcome-SameEvidence db cmd oid now)
        held
  serve-Holds (reassign mid inspector actor now new_id token) db held =
      mission-Holds (reassign_inspector mid inspector actor now new_id token) db
        (reassign_inspector-SameEvidence db mid inspector actor now new_id token) held
  serve-Holds (signal mid author message xid now) db held =
      mission-Holds (create_exception mid author message xid now) db
        (create_exception-SameEvidence db mid author message xid now) held
  serve-Holds (patch mid body) db held =
      mission-Holds (patch_mission mid body) db (patch_mission-SameEvidence db mid body) held

  serve_all-Holds :
      (rs : List Request) (db : Db) → Holds s' k' q db → Holds s' k' q (serve_all rs db)
  unfolding serve_all
  serve_all-Holds [] db held = held
  serve_all-Holds (r ∷ rs) db held = serve_all-Holds rs (serve r db) (serve-Holds r db held)

-- A key with an answer gives that answer, and nothing is written.
again :
    (s : Scope) (k : Text) (p : Payload) (fresh : Exec Payload) (db : Db)
    → Holds s k p db
    → transaction (replayed s k fresh) db ≡ (ok p, db)
unfolding transaction
again s k p fresh db held = rw (held, response_same s k db)

-- After a success the answer is held.
module _ (s : Scope) (k : Text) (p : Payload) (fresh : Exec Payload) (db : Db)
    (st : Stores s k fresh db) where
  done-Holds :
      (c : Option Payload)
      → (get_response s k db).0 ≡ ok c
      → (replay_or c fresh db).0 ≡ ok p
      → Holds s k p (replay_or c fresh db).1
  done-Holds none e h =
      let (now, same) = st.at p h in
      Holds-same s k p (save_response s k now p db).1 (fresh db).1 same
        (ap (λ (x : Result (Option Payload) × Db). x.0) (get_response-save_response s k now p db e))
  done-Holds (some p') e h = ground (arith, e, h)

  success-Holds :
      (transaction (replayed s k fresh) db).0 ≡ ok p
      → Holds s k p (transaction (replayed s k fresh) db).1
  unfolding transaction
  success-Holds h =
      let a = >>=-Step (get_response s k) (λ c. replay_or c fresh) db p h in
      let h' =
        subst (λ x. (replay_or a.result fresh x).0 ≡ ok p) (response_same s k db)
          (rw a.rest at h) in
      rw (h, a.rest, response_same s k db) (done-Holds a.result a.first h')

  later_answer :
      (rs : List Request) (s' : Scope) (k' : Text) (fresh' : Exec Payload)
      → s' ≡ s
      → k' ≡ k
      → (transaction (replayed s k fresh) db).0 ≡ ok p
      → let after = serve_all rs (transaction (replayed s k fresh) db).1 in
        transaction (replayed s' k' fresh') after ≡ (ok p, after)
  later_answer rs s' k' fresh' same_scope same_key h =
      let first = (transaction (replayed s k fresh) db).1 in
      again s' k' p fresh' (serve_all rs first)
        (rw (same_scope, same_key) (serve_all-Holds s k p rs first (success-Holds h)))

-- Once a check-in has been answered, a check-in for the same mission with the same client key
-- gets the same answer and writes nothing, whatever requests were served in between, and whatever
-- position, inspector and mode it carries.
pub check_in_replay :
    (fl fl' : FloatOps) (cmd cmd' : CheckInInspectorCommand) (draw draw' : CheckInDraw) (db : Db)
    (rs : List Request) (p : Payload)
    → cmd'.mission_id ≡ cmd.mission_id
    → cmd'.client_request_id ≡ cmd.client_request_id
    → (transaction (check_in fl cmd draw) db).0 ≡ ok p
    → let after = serve_all rs (transaction (check_in fl cmd draw) db).1 in
      transaction (check_in fl' cmd' draw') after ≡ (ok p, after)
unfolding check_in
check_in_replay fl fl' cmd cmd' draw draw' db rs p same_mission same_key h =
    later_answer (Scope.check_in cmd.mission_id) cmd.client_request_id p
      (check_in_fresh fl cmd draw) db (check_in-Stores fl cmd draw db) rs
      (Scope.check_in cmd'.mission_id) cmd'.client_request_id (check_in_fresh fl' cmd' draw')
      (ap Scope.check_in same_mission) same_key h

-- Once a host's confirmation has been answered, one for the same visit with the same client key
-- gets the same answer and writes nothing, whatever requests were served in between.
pub confirm_host_replay :
    (w w' : ConfirmWorld) (cmd cmd' : ConfirmHostCommand) (db : Db) (rs : List Request)
    (p : Payload)
    → cmd'.site_visit_id ≡ cmd.site_visit_id
    → cmd'.client_request_id ≡ cmd.client_request_id
    → (transaction (confirm_host w cmd) db).0 ≡ ok p
    → let after = serve_all rs (transaction (confirm_host w cmd) db).1 in
      transaction (confirm_host w' cmd') after ≡ (ok p, after)
unfolding confirm_host
confirm_host_replay w w' cmd cmd' db rs p same_visit same_key h =
    later_answer (Scope.confirm_host cmd.site_visit_id) cmd.client_request_id p
      (confirm_fresh w cmd) db (confirm-Stores w cmd db) rs (Scope.confirm_host cmd'.site_visit_id)
      cmd'.client_request_id (confirm_fresh w' cmd') (ap Scope.confirm_host same_visit) same_key h

-- Once a check-out has been answered, one for the same visit with the same client key gets the
-- same answer, with the first time and duration, and writes nothing, whatever requests were
-- served in between.
pub check_out_replay :
    (cmd cmd' : CheckOutCommand) (now now' : Datetime) (db : Db) (rs : List Request) (p : Payload)
    → cmd'.site_visit_id ≡ cmd.site_visit_id
    → cmd'.client_request_id ≡ cmd.client_request_id
    → (transaction (check_out_visit cmd now) db).0 ≡ ok p
    → let after = serve_all rs (transaction (check_out_visit cmd now) db).1 in
      transaction (check_out_visit cmd' now') after ≡ (ok p, after)
unfolding check_out_visit
check_out_replay cmd cmd' now now' db rs p same_visit same_key h =
    later_answer (Scope.check_out cmd.site_visit_id) cmd.client_request_id p
      (check_out_fresh cmd now) db (check_out-Stores cmd now db) rs
      (Scope.check_out cmd'.site_visit_id) cmd'.client_request_id (check_out_fresh cmd' now')
      (ap Scope.check_out same_visit) same_key h
