-- ===== src/Api/Missions/Patch.antt =====
-- What a patch of a mission changes.
use sigis_backend.Base.{
  or_else, ℕ, ◌≡◌, refl, ap, ◌∙◌, ◌==◌, Option, none, some, Text, if◌then◌else◌,
}
use sigis_backend.Base.Table.{get, get-put, get_own, key_of_get}
use sigis_backend.Errors.{ok, err, ErrorClass, raised_as}
use sigis_backend.Domain.Mission.{Mission, MissionStatus}
use sigis_backend.Store.{Db, transaction}
use sigis_backend.Store.Missions.{get_mission, save_mission, write_mission, merge_token}
use sigis_backend.Store.Missions.Queries.{status_text}
use sigis_backend.Api.Missions.{or_old, UpdateMissionBody, status_of, patched, patch_mission}

abbrev mission_id : Mission → ℕ
mission_id m = m.id

pub status_of-text : (s : MissionStatus) → status_of (status_text s) ≡ some s
unfolding status_of status_text
status_of-text MissionStatus.draft = refl
status_of-text MissionStatus.planned = refl
status_of-text MissionStatus.in_progress = refl
status_of-text MissionStatus.completed = refl
status_of-text MissionStatus.cancelled = refl

merge_own : (token : Option ℕ) → merge_token token token ≡ token
merge_own none = refl
merge_own (some t) = refl

-- A patch with the text of any status succeeds for a mission in any status. It stores and returns
-- the old mission with that status and, for the window's two ends, the SMS code, the designated
-- host, the objective and the plan reference, the new value where one is given; every other
-- mission is as before. A text that is no status gives a conflict, and then nothing changes.
pub patch_mission_lem :
    (mid j : ℕ) (body : UpdateMissionBody) (s : MissionStatus) (wrong : Text) (m : Mission)
    (db : Db)
    → get_mission mid db ≡ some m
    → body.status ≡ some (status_text s)
    → status_of wrong ≡ none
    → let after = transaction (patch_mission mid body) db in
      let new : Mission = record m {
        window_start = or_old body.window_start m.window_start;
        window_end = or_old body.window_end m.window_end;
        status = s;
        sms_code = or_else body.sms_code m.sms_code;
        designated_host_user_id = or_else body.designated_host_user_id m.designated_host_user_id;
        objective = or_else body.objective m.objective;
        plan_reference = or_else body.plan_reference m.plan_reference;
      } in
      (after.0 ≡ ok new)
      × (get_mission j after.1 ≡ (if mid == j then some new else get_mission j db))
      × (transaction (patch_mission mid (record body { status = some wrong })) db
          ≡ (err (raised_as ErrorClass.conflict), db))
unfolding transaction patch_mission save_mission write_mission get_mission patched
patch_mission_lem mid j body s wrong m db found given bad =
    let own = get_own mission_id mid db.missions {v = m} found in
    let key = key_of_get mission_id mid db.missions {v = m} found in
    (
      rw (found, given, status_of-text s, own) refl,
      rw (found, given, status_of-text s, own, merge_own m.host_token)
          (get-put mission_id j (patched body s m) db.missions
            ∙ ap (λ n. if n == j then some (patched body s m) else get mission_id j db.missions)
                key),
      rw (found, bad) refl,
    )
