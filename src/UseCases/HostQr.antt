-- ===== src/UseCases/HostQr.antt =====
-- common/host_qr_jwt.py: the short-lived token behind a host's QR code. The library `jwt` signs
-- and checks; it is an argument.
pub mod RoundTrip
use Prim.Native.Nat.{◌/◌}
use sigis_backend.Base.{
  ℕ, Bool, false, ◌&&◌, Option, none, some, Text, codes, text_eq, length, ltb, if◌then◌else◌,
}
use sigis_backend.Base.Uuid.{uuid_text}
use sigis_backend.Time.{Datetime, aware, instant, dt_le, dt_lt, minutes, plus_delta}
use sigis_backend.Errors.{Result, ok, err, raised, Failure, ErrorClass, Code}
use sigis_backend.Domain.Mission.{Mission}

-- The claims of a payload; `none` where a claim is missing or is no text. The times are whole
-- seconds, counted like instants.
pub record Claims : Type 0 where
  pub sub : Option Text
  pub ht : Option Text
  pub typ : Option Text
  pub jti : Option Text
  pub iat : ℕ
  pub exp : ℕ

-- `jwt.decode`: the payload, `ExpiredSignatureError`, or another `PyJWTError` (a bad signature, a
-- required claim that is missing).
pub data Decoded : Type 0 where
  expired invalid : Decoded
  payload : Claims → Decoded

-- `jwt.encode` and `jwt.decode` with a key and an algorithm. A decoded token is checked against
-- the clock.
pub record Jwt : Type 0 where
  pub encode : Text → Text → Claims → Text
  pub decode : Text → Text → Datetime → Text → Decoded

pub record HostQrSettings : Type 0 where
  pub secret_key : Text
  pub jwt_algorithm : Text

-- `exp > we`, with `window_end` taken as UTC where it has no zone: the earlier of the two.
unfoldable pub clamp_expiry : Datetime → Datetime → Datetime
unfolding aware
clamp_expiry exp window_end = if dt_lt (aware window_end) exp then aware window_end else exp

-- `int(dt.timestamp())`, from another origin a whole number of seconds away.
unfoldable pub seconds : Datetime → ℕ
unfolding instant
seconds dt = instant dt / 1000000

-- The payload that is signed.
unfoldable pub host_qr_claims : ℕ → Mission → ℕ → Datetime → Text → Claims
unfolding plus_delta clamp_expiry seconds
host_qr_claims ttl_minutes mission token now jti = record {
  sub = some (uuid_text mission.id);
  ht = some (uuid_text token);
  typ = some (codes "host_qr");
  jti = some jti;
  iat = seconds now;
  exp = seconds (clamp_expiry (plus_delta now (minutes ttl_minutes)) mission.window_end);
}

unfoldable pub create_host_qr_jwt :
    Jwt → HostQrSettings → ℕ → Mission → Datetime → Text → Result Text
unfolding host_qr_claims
create_host_qr_jwt jwt settings ttl_minutes mission now jti = elim mission.host_token [
  | none ↦ err Failure.value_error
  | some token ↦ ok (
      jwt.encode settings.secret_key settings.jwt_algorithm
        (host_qr_claims ttl_minutes mission token now jti))
]

-- `payload.get(claim) == text`
abbrev pub claim_is : Option Text → Text → Bool
claim_is none t = false
claim_is (some s) t = text_eq s t

abbrev invalid_token : Failure
invalid_token = raised ErrorClass.copresence_rejected Code.invalid_qr_token

-- `not isinstance(jti, str) or len(jti) < 8`, and the window.
unfoldable pub verify_jti : Option Text → Datetime → Mission → Result Text
unfolding aware
verify_jti none now mission = err invalid_token
verify_jti (some jti) now mission =
    if ltb (length jti) 8
    then err invalid_token
    else if dt_le (aware mission.window_start) (aware now)
        && dt_le (aware now) (aware mission.window_end)
    then ok jti
    else err (raised ErrorClass.copresence_rejected Code.mission_expired)

unfoldable pub verify_host_token : Option ℕ → Claims → Datetime → Mission → Result Text
unfolding verify_jti
verify_host_token none claims now mission = err invalid_token
verify_host_token (some token) claims now mission =
    if claim_is claims.ht (uuid_text token)
    then verify_jti claims.jti now mission
    else err invalid_token

unfoldable pub verify_claims : Decoded → Datetime → Mission → Result Text
unfolding verify_host_token
verify_claims Decoded.expired now mission = err invalid_token
verify_claims Decoded.invalid now mission = err invalid_token
verify_claims (Decoded.payload claims) now mission =
    if claim_is claims.typ (codes "host_qr")
    then if claim_is claims.sub (uuid_text mission.id)
      then verify_host_token mission.host_token claims now mission
      else err invalid_token
    else err invalid_token

-- `verify_host_qr_jwt`. `now` is the clock when the token has been decoded.
unfoldable pub verify_host_qr_jwt : Jwt → HostQrSettings → Text → Mission → Datetime → Result Text
unfolding verify_claims
verify_host_qr_jwt jwt settings token mission now =
    verify_claims (jwt.decode settings.secret_key settings.jwt_algorithm now token) now mission
