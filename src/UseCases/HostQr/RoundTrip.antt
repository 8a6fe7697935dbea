-- ===== src/UseCases/HostQr/RoundTrip.antt =====
-- A host's token that is made is a token that is accepted (common/host_qr_jwt.py).
use sigis_backend.Base.{
  ℕ, ◌+◌, ◌*◌, ◌≤◌, ◌<◌, ◌≡◌, sym, refl, true, some, Text, codes, text_eq, text_eq_iff, length,
  arith,
}
use sigis_backend.Base.Uuid.{uuid_text}
use sigis_backend.Time.{Datetime, instant, minutes, plus_delta}
use sigis_backend.Errors.{ok}
use sigis_backend.Domain.Mission.{Mission}
use sigis_backend.UseCases.HostQr.{
  Claims, Decoded, Jwt, HostQrSettings, clamp_expiry, seconds, host_qr_claims, create_host_qr_jwt,
  verify_claims, verify_host_qr_jwt,
}

-- The expiry of a token is the earlier one of its own time and the end of the window.
pub clamp_expiry_lem :
    (exp window_end : Datetime)
    → (instant (clamp_expiry exp window_end) ≤ instant exp)
      × (instant (clamp_expiry exp window_end) ≤ instant window_end)
      × ((t : ℕ)
          → t ≤ instant exp
          → t ≤ instant window_end
          → t ≤ instant (clamp_expiry exp window_end))
unfolding clamp_expiry instant
clamp_expiry_lem exp window_end = (ground arith, ground arith, λ t a b. ground (arith, a, b))

seconds-le : (dt : Datetime) (t : ℕ) → instant dt ≤ t → seconds dt * 1000000 ≤ t
unfolding seconds
seconds-le dt t h = omega (arith, h)

lt-seconds : (dt : Datetime) (t : ℕ) → t + 1000000 ≤ instant dt → t < seconds dt * 1000000
unfolding seconds
lt-seconds dt t h = omega (arith, h)

-- The library gives back the texts of the claims; nothing is asked of the times.
pub record Reads (jwt : Jwt) (settings : HostQrSettings) (now : Datetime) (c : Claims)
    : Type 0 where
  pub back : Claims
  pub decoded :
      jwt.decode settings.secret_key settings.jwt_algorithm now
        (jwt.encode settings.secret_key settings.jwt_algorithm c)
      ≡ Decoded.payload back
  pub sub : back.sub ≡ c.sub
  pub ht : back.ht ≡ c.ht
  pub typ : back.typ ≡ c.typ
  pub jti : back.jti ≡ c.jti

text_eq-same : (t : Text) → text_eq t t ≡ true
text_eq-same t = (text_eq_iff t t).1 refl

claims_pass :
    (c : Claims) (mission : Mission) (t : ℕ) (jti : Text) (now : Datetime)
    → mission.host_token ≡ some t
    → c.sub ≡ some (uuid_text mission.id)
    → c.ht ≡ some (uuid_text t)
    → c.typ ≡ some (codes "host_qr")
    → c.jti ≡ some jti
    → 8 ≤ length jti
    → instant mission.window_start ≤ instant now
    → instant now ≤ instant mission.window_end
    → verify_claims (Decoded.payload c) now mission ≡ ok jti
unfolding verify_claims instant
claims_pass c mission t jti now has sub ht typ j long opened open_still =
    rw (typ, sub, has, ht, j, text_eq-same (uuid_text mission.id), text_eq-same (uuid_text t))
      (ground (arith, long, opened, open_still))

-- Given a library that, not before the second of issue and before that of expiry, gives back the
-- texts of the payload that it has signed: a token made for a mission with a host token, under an
-- identifier of at least 8 characters, is accepted, with that identifier, at any time of the
-- window that is not before its making and at least a second before the window's end and the end
-- of its life.
pub host_qr_round_trip :
    (jwt : Jwt) (settings : HostQrSettings) (ttl : ℕ) (mission : Mission) (made now : Datetime)
    (jti token : Text) (t : ℕ)
    → ((host_qr_claims ttl mission t made jti).iat * 1000000 ≤ instant now
        → instant now < (host_qr_claims ttl mission t made jti).exp * 1000000
        → Reads jwt settings now (host_qr_claims ttl mission t made jti))
    → mission.host_token ≡ some t
    → create_host_qr_jwt jwt settings ttl mission made jti ≡ ok token
    → 8 ≤ length jti
    → instant made ≤ instant now
    → instant now + 1000000 ≤ instant made + minutes ttl
    → instant mission.window_start ≤ instant now
    → instant now + 1000000 ≤ instant mission.window_end
    → verify_host_qr_jwt jwt settings token mission now ≡ ok jti
unfolding create_host_qr_jwt verify_host_qr_jwt
host_qr_round_trip jwt settings ttl mission made now jti token t reads has created long since life
      opened open_still =
    let r = reads (seconds-le made (instant now) since) (
      lt-seconds (clamp_expiry (plus_delta made (minutes ttl)) mission.window_end) (instant now) (
        (clamp_expiry_lem (plus_delta made (minutes ttl)) mission.window_end).2
          (instant now + 1000000) (unfold instant plus_delta in ground (arith, life))
          open_still)) in
    let it_is : jwt.encode settings.secret_key settings.jwt_algorithm
          (host_qr_claims ttl mission t made jti)
        ≡ token =
      ground (arith, rw has at created) in
    rw (sym it_is, r.decoded)
      (claims_pass r.back mission t jti now has r.sub r.ht r.typ r.jti long opened
        (ground (arith, open_still)))
