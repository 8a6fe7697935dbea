-- ===== src/Safety/Tokens.antt =====
-- The tokens of common/host_qr_jwt.py are used once: `used_qr_jti` remembers them
-- (application/use_cases/confirm_host_presence.py, `UsedQrJtiRepositoryImpl`).
use sigis_backend.Base.{
  ℕ, ◌≡◌, refl, true, false, some, List, [], ◌∷◌, ◌++◌, Text, text_eq, text_eq_iff, is_some, inl,
  inr, Option-cases, Bool-cases, arith,
}
use sigis_backend.Base.Table.{first, first-append}
use sigis_backend.Time.{Datetime}
use sigis_backend.Errors.{Result, ok, err, raised, ErrorClass, Code}
use sigis_backend.Api.Missions.{patch_mission}
use sigis_backend.Domain.Mission.{Mission}
use sigis_backend.Domain.Presence.{GeofenceStatus}
use sigis_backend.Domain.Visit.{
  SiteVisit, HostValidationMode, qr_static, app_gps, sms_shortcode, mark_copresence_ok,
}
use sigis_backend.Store.{Db, Exec, UsedQrJti, Payload, Scope, transaction}
use sigis_backend.Store.Missions.{get_mission}
use sigis_backend.Store.Visits.{get_visit, save_visit}
use sigis_backend.Store.Idempotency.{save_response}
use sigis_backend.Store.Evidence.{add_proof, add_event, is_consumed, consume}
use sigis_backend.UseCases.CheckIn.{
  CheckInInspectorCommand, CheckInDraw, check_in_write, check_in_fresh, check_in,
}
use sigis_backend.UseCases.HostQr.{verify_host_qr_jwt}
use sigis_backend.UseCases.ConfirmHost.{
  ConfirmWorld, ConfirmHostCommand, confirm_guards, confirm_jwt, confirm_mode, confirm_write,
  confirm_fresh, confirm_host,
}
use sigis_backend.UseCases.CheckOut.{
  CheckOutCommand, check_out_write, check_out_fresh, check_out_visit,
}
use sigis_backend.UseCases.Missions.{
  create_mission, approve_mission, cancel_mission, submit_outcome, reassign_inspector,
  create_exception,
}
use sigis_backend.Safety.Rollback.{replayed_keeps, transaction_keeps}
use sigis_backend.Safety.CheckIn
use sigis_backend.Safety.CheckOut
use sigis_backend.Safety.ConfirmHost
use sigis_backend.Safety.Missions.{
  SameEvidence, create_mission-SameEvidence, approve_mission-SameEvidence,
  patch_mission-SameEvidence, cancel_mission-SameEvidence, submit_outcome-SameEvidence,
  reassign_inspector-SameEvidence, create_exception-SameEvidence,
}
use sigis_backend.Safety.Requests.{
  Request, arrive, confirm, leave, plan, approve, cancel, report, reassign, signal, patch, serve,
  serve_all,
}

-- A used token of `a` is a used token of `b`.
abbrev Grows : Db → Db → Type 0
Grows a b = (jti : Text) → is_consumed jti a ≡ true → is_consumed jti b ≡ true

same-Grows : (a b : Db) → b.used_qr_jti ≡ a.used_qr_jti → Grows a b
unfolding is_consumed
same-Grows a b e jti h = rw e h

is_consumed-append :
    (jti : Text) (rows : List UsedQrJti) (r : UsedQrJti)
    → is_some (first (λ (x : UsedQrJti). text_eq x.jti jti) rows) ≡ true
    → is_some (first (λ (x : UsedQrJti). text_eq x.jti jti) (rows ++ r ∷ [])) ≡ true
unfolding first
is_consumed-append jti rows r h =
    rw (first-append (λ (x : UsedQrJti). text_eq x.jti jti) rows (r ∷ [])) (ground (arith, h))

consume-Grows : (k : Text) (mid : ℕ) (now : Datetime) (db : Db) → Grows db (consume k mid now db).1
unfolding consume is_consumed
consume-Grows k mid now db jti h = ground (
  arith,
  h,
  is_consumed-append jti db.used_qr_jti (record { jti = k; mission_id = mid; consumed_at = now }),
)

-- A token that has just been consumed is a used one.
consumed-now :
    (k : Text) (mid : ℕ) (now : Datetime) (db : Db) → is_consumed k (consume k mid now db).1 ≡ true
unfolding consume is_consumed first
consumed-now k mid now db = elim (Bool-cases (is_consumed k db)) [
  | inl used ↦ consume-Grows k mid now db k used
  | inr unused ↦ rw unused (
      rw
        (first-append (λ (x : UsedQrJti). text_eq x.jti k) db.used_qr_jti
          (record { jti = k; mission_id = mid; consumed_at = now } ∷ []))
        (ground (arith, unused, text_eq_iff k k)))
]

module _ (w : ConfirmWorld) (cmd : ConfirmHostCommand) where
  jwt-Grows :
      (token : Text) (m : Mission) (v : SiteVisit) (db : Db) (r : Result Text)
      → verify_host_qr_jwt w.jwt w.settings token m w.verify_now ≡ r
      → Grows db (confirm_jwt w token m v db).1
  unfolding confirm_jwt
  jwt-Grows token m v db (err x) e jti h = rw e h
  jwt-Grows token m v db (ok k) e jti h = rw e (ground (arith, consume-Grows k m.id w.now db jti h))

  mode-Grows :
      (mode : HostValidationMode) (m : Mission) (v : SiteVisit) (db : Db)
      → Grows db (confirm_mode w cmd mode m v db).1
  unfolding confirm_mode
  mode-Grows app_gps m v db jti h = ground (arith, h)
  mode-Grows sms_shortcode m v db jti h = ground (arith, h)
  mode-Grows qr_static m v db jti h = elim (Option-cases cmd.qr_jwt) [
    | inl no_token ↦ rw no_token (ground (arith, h))
    | inr (token, e) ↦ rw e (
        jwt-Grows token m v db (verify_host_qr_jwt w.jwt w.settings token m w.verify_now) refl jti
          h)
  ]

  write-tokens :
      (mode : HostValidationMode) (v : SiteVisit) (db : Db)
      → (confirm_write w cmd mode v db).1.used_qr_jti ≡ db.used_qr_jti
  unfolding confirm_write mark_copresence_ok save_visit add_proof add_event save_response
  write-tokens mode v db = ground arith

  confirm-Grows :
      (db : Db) (p : Payload)
      → (confirm_fresh w cmd db).0 ≡ ok p
      → Grows db (confirm_fresh w cmd db).1
  confirm-Grows db p h jti used =
      let a = ConfirmHost.fresh-Accepted w cmd db p h in
      let db' = (confirm_mode w cmd a.mode a.mission a.visit db).1 in
      rw a.whole (
        same-Grows db' (confirm_write w cmd a.mode a.located db').1
          (write-tokens a.mode a.located db') jti (mode-Grows a.mode a.mission a.visit db jti used))

check_in_write-tokens :
    (cmd : CheckInInspectorCommand) (draw : CheckInDraw) (gf : GeofenceStatus) (v : SiteVisit)
    (db : Db)
    → (check_in_write cmd draw gf v db).1.used_qr_jti ≡ db.used_qr_jti
unfolding check_in_write save_visit add_proof save_response
check_in_write-tokens cmd draw gf v db = ground arith

check_out_write-tokens :
    (cmd : CheckOutCommand) (now : Datetime) (v : SiteVisit) (db : Db)
    → (check_out_write cmd now v db).1.used_qr_jti ≡ db.used_qr_jti
unfolding check_out_write save_visit save_response
check_out_write-tokens cmd now v db = ground arith

module _ (jti : Text) where
  mission-keeps :
      {A : Type 0} (m : Exec A) (db : Db)
      → SameEvidence db (m db).1
      → is_consumed jti db ≡ true
      → is_consumed jti (transaction m db).1 ≡ true
  mission-keeps m db e used =
      transaction_keeps (λ x. is_consumed jti x ≡ true) m db used
        λ a h. same-Grows db (m db).1 e.tokens jti used

  serve-keeps :
      (r : Request) (db : Db) → is_consumed jti db ≡ true → is_consumed jti (serve r db) ≡ true
  unfolding serve check_in confirm_host check_out_visit
  serve-keeps (arrive fl cmd draw) db used =
      replayed_keeps (λ x. is_consumed jti x ≡ true) (Scope.check_in cmd.mission_id)
        cmd.client_request_id (check_in_fresh fl cmd draw) db used
        λ p e h.
          let a = CheckIn.fresh-Accepted fl cmd draw db p h in
          rw a.whole (
            same-Grows db (check_in_write cmd draw a.status a.visit db).1
              (check_in_write-tokens cmd draw a.status a.visit db) jti used)
  serve-keeps (confirm w cmd) db used =
      replayed_keeps (λ x. is_consumed jti x ≡ true) (Scope.confirm_host cmd.site_visit_id)
        cmd.client_request_id (confirm_fresh w cmd) db used
        λ p e h. confirm-Grows w cmd db p h jti used
  serve-keeps (leave cmd now) db used =
      replayed_keeps (λ x. is_consumed jti x ≡ true) (Scope.check_out cmd.site_visit_id)
        cmd.client_request_id (check_out_fresh cmd now) db used
        λ p e h.
          let a = CheckOut.fresh-Accepted cmd now db p h in
          rw a.whole (
            same-Grows db (check_out_write cmd now a.closed db).1
              (check_out_write-tokens cmd now a.closed db) jti used)
  serve-keeps (plan cmd mid token) db used =
      mission-keeps (create_mission cmd mid token) db (create_mission-SameEvidence db cmd mid token)
        used
  serve-keeps (approve mid) db used =
      mission-keeps (approve_mission mid) db (approve_mission-SameEvidence db mid) used
  serve-keeps (cancel mid reason by_user now) db used =
      mission-keeps (cancel_mission mid reason by_user now) db
        (cancel_mission-SameEvidence db mid reason by_user now) used
  serve-keeps (report cmd oid now) db used =
      mission-keeps (submit_outcome cmd oid now) db (submit_outcome-SameEvidence db cmd oid now)
        used
  serve-keeps (reassign mid inspector actor now new_id token) db used =
      mission-keeps (reassign_inspector mid inspector actor now new_id token) db
        (reassign_inspector-SameEvidence db mid inspector actor now new_id token) used
  serve-keeps (signal mid author message xid now) db used =
      mission-keeps (create_exception mid author message xid now) db
        (create_exception-SameEvidence db mid author message xid now) used
  serve-keeps (patch mid body) db used =
      mission-keeps (patch_mission mid body) db (patch_mission-SameEvidence db mid body) used

  serve_all-keeps :
      (rs : List Request) (db : Db)
      → is_consumed jti db ≡ true
      → is_consumed jti (serve_all rs db) ≡ true
  unfolding serve_all
  serve_all-keeps [] db used = used
  serve_all-keeps (r ∷ rs) db used = serve_all-keeps rs (serve r db) (serve-keeps r db used)

-- The token of a confirmation by QR code.
pub record Spent (w : ConfirmWorld) (token : Text) (m : Mission) (a b : Db) : Type 0 where
  pub jti : Text
  pub valid : verify_host_qr_jwt w.jwt w.settings token m w.verify_now ≡ ok jti
  pub unused : is_consumed jti a ≡ false
  pub used : is_consumed jti b ≡ true

unused_before :
    (k : Text) (mid : ℕ) (now : Datetime) (db : Db)
    → (consume k mid now db).0 ≡ ok true
    → is_consumed k db ≡ false
unfolding consume
unused_before k mid now db h = ground (arith, h)

jwt-Spent :
    (w : ConfirmWorld) (token : Text) (m : Mission) (v v' : SiteVisit) (db : Db) (r : Result Text)
    → verify_host_qr_jwt w.jwt w.settings token m w.verify_now ≡ r
    → (confirm_jwt w token m v db).0 ≡ ok v'
    → Spent w token m db (confirm_jwt w token m v db).1
unfolding confirm_jwt
jwt-Spent w token m v v' db (err x) e h = absurd (ground (arith, rw e at h))
jwt-Spent w token m v v' db (ok k) e h =
    let before : is_consumed k db ≡ false = unfold consume in ground (arith, e, h) in
    record {
      jti = k;
      valid = e;
      unused = before;
      used = rw e (unfold consume in ground (arith, e, before, consumed-now k m.id w.now db));
    }

guards_value :
    (cmd : ConfirmHostCommand) (db : Db) (v : SiteVisit) (m : Mission) (mode : HostValidationMode)
    (v' : SiteVisit) (m' : Mission)
    → (confirm_guards cmd db).0 ≡ ok (v, m, mode)
    → get_visit cmd.site_visit_id db ≡ some v'
    → get_mission cmd.mission_id db ≡ some m'
    → v'.host_validation_mode ≡ some qr_static
    → (v ≡ v') × (m ≡ m') × (mode ≡ qr_static)
unfolding confirm_guards
guards_value cmd db v m mode v' m' h found planned in_mode =
    (ground (arith, h, found), ground (arith, h, planned), ground (arith, h, found, in_mode))

-- A confirmation that went through by QR code, in which the branch of the signed token was taken.
confirm-Spent :
    (w : ConfirmWorld) (cmd : ConfirmHostCommand) (db : Db) (p : Payload) (v : SiteVisit)
    (m : Mission) (token : Text)
    → (confirm_fresh w cmd db).0 ≡ ok p
    → get_visit cmd.site_visit_id db ≡ some v
    → get_mission cmd.mission_id db ≡ some m
    → v.host_validation_mode ≡ some qr_static
    → cmd.qr_jwt ≡ some token
    → Spent w token m db (confirm_fresh w cmd db).1
confirm-Spent w cmd db p v m token h found planned in_mode given =
    let a = ConfirmHost.fresh-Accepted w cmd db p h in
    let same = guards_value cmd db a.visit a.mission a.mode v m a.guards found planned in_mode in
    let db' = (confirm_mode w cmd a.mode a.mission a.visit db).1 in
    let by_jwt : confirm_mode w cmd a.mode a.mission a.visit db ≡ confirm_jwt w token m v db =
      rw (same.0, same.1, same.2) (unfold confirm_mode in rw given refl) in
    let s =
      jwt-Spent w token m v a.located db (verify_host_qr_jwt w.jwt w.settings token m w.verify_now)
        refl (rw by_jwt at a.by_mode) in
    record {
      jti = s.jti;
      valid = s.valid;
      unused = s.unused;
      used = rw a.whole (
          same-Grows db' (confirm_write w cmd a.mode a.located db').1
            (write-tokens w cmd a.mode a.located db') s.jti (rw by_jwt s.used));
    }

used_refused :
    (w : ConfirmWorld) (token : Text) (m : Mission) (v : SiteVisit) (jti : Text) (db : Db)
    → verify_host_qr_jwt w.jwt w.settings token m w.verify_now ≡ ok jti
    → is_consumed jti db ≡ true
    → (confirm_jwt w token m v db).0
      ≡ err (raised ErrorClass.copresence_rejected Code.invalid_qr_token)
unfolding confirm_jwt consume
used_refused w token m v jti db valid used = ground (arith, valid, used)

-- A signed token that has confirmed a visit had not been used, and after any further requests
-- no token with the same `jti` is accepted again, for whatever mission and visit.
pub token_once :
    (w w' : ConfirmWorld) (cmd : ConfirmHostCommand) (db : Db) (p : Payload) (v v' : SiteVisit)
    (m m' : Mission) (token token' jti : Text) (rs : List Request)
    → (confirm_fresh w cmd db).0 ≡ ok p
    → get_visit cmd.site_visit_id db ≡ some v
    → get_mission cmd.mission_id db ≡ some m
    → v.host_validation_mode ≡ some qr_static
    → cmd.qr_jwt ≡ some token
    → verify_host_qr_jwt w.jwt w.settings token m w.verify_now ≡ ok jti
    → verify_host_qr_jwt w'.jwt w'.settings token' m' w'.verify_now ≡ ok jti
    → (is_consumed jti db ≡ false)
      × ((confirm_jwt w' token' m' v' (serve_all rs (confirm_fresh w cmd db).1)).0
          ≡ err (raised ErrorClass.copresence_rejected Code.invalid_qr_token))
token_once w w' cmd db p v v' m m' token token' jti rs h found planned in_mode given valid again =
    let s = confirm-Spent w cmd db p v m token h found planned in_mode given in
    let same : s.jti ≡ jti = ground (arith, valid, s.valid) in
    (
      rw same at s.unused,
      used_refused w' token' m' v' jti (serve_all rs (confirm_fresh w cmd db).1) again
          (serve_all-keeps jti rs (confirm_fresh w cmd db).1 (rw same at s.used)),
    )
