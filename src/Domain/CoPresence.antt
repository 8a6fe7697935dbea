-- ===== src/Domain/CoPresence.antt =====
-- domain/shared/copresence_rules.py and fallback_validation.py: the three ways in which a host
-- confirms a visit.
use sigis_backend.Base.{
  ℕ, ◌+◌, Bool, true, false, ◌&&◌, Option, none, some, [], ◌∷◌, Text, ltb, ◌==◌, text_eq,
  if◌then◌else◌,
}
use sigis_backend.Base.Float.{Float, FloatOps}
use sigis_backend.Base.Strip.{strip}
use sigis_backend.Time.{Datetime, aware, instant, dt_le}
use sigis_backend.Errors.{Result, ok, err, raised, ErrorClass, Code}
use sigis_backend.Domain.Visit.{HostValidationMode}

-- `reinforce_under_meters` is stored and read by nothing.
pub record CoPresenceParams : Type 0 where
  pub max_delay : ℕ
  pub max_distance_meters : Float
  pub reinforce_under_meters : Option Float

unfoldable pub assert_copresence_mode_a :
    FloatOps → Datetime → Datetime → Float → CoPresenceParams → Result (Unit {0})
unfolding aware
assert_copresence_mode_a fl inspector_position_time host_position_time distance_meters params =
    let ins_t = aware inspector_position_time in
    let host_t = aware host_position_time in
    if ltb (instant ins_t + params.max_delay) (instant host_t)
    then err (raised ErrorClass.copresence_rejected Code.copresence_timeout)
    else if fl.gt distance_meters params.max_distance_meters
    then err (raised ErrorClass.copresence_rejected Code.copresence_distance)
    else ok tt

unfoldable pub copresence_applies_gps_pair : HostValidationMode → Bool
copresence_applies_gps_pair HostValidationMode.app_gps = true
copresence_applies_gps_pair HostValidationMode.qr_static = false
copresence_applies_gps_pair HostValidationMode.sms_shortcode = false

unfoldable pub assert_qr_token_valid : ℕ → ℕ → Datetime → Datetime → Datetime → Result (Unit {0})
unfolding aware
assert_qr_token_valid provided_token mission_host_token now window_start window_end =
    if provided_token == mission_host_token
    then if dt_le (aware window_start) (aware now) && dt_le (aware now) (aware window_end)
      then ok tt
      else err (raised ErrorClass.copresence_rejected Code.mission_expired)
    else err (raised ErrorClass.copresence_rejected Code.invalid_qr_token)

-- `not s`: no code, or an empty one.
abbrev pub is_falsy : Option Text → Bool
is_falsy none = true
is_falsy (some []) = true
is_falsy (some (c ∷ s)) = false

abbrev text_of : Option Text → Text
text_of none = []
text_of (some s) = s

unfoldable pub assert_sms_code_valid :
    Text → Option Text → Datetime → Datetime → Datetime → Result (Unit {0})
unfolding aware
assert_sms_code_valid provided_code mission_sms_code now window_start window_end =
    if is_falsy mission_sms_code
    then err (raised ErrorClass.copresence_rejected Code.sms_not_configured)
    else if text_eq (strip provided_code) (strip (text_of mission_sms_code))
    then if dt_le (aware window_start) (aware now) && dt_le (aware now) (aware window_end)
      then ok tt
      else err (raised ErrorClass.copresence_rejected Code.mission_expired)
    else err (raised ErrorClass.copresence_rejected Code.invalid_sms_code)
