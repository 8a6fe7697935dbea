-- ===== src/Tests/Tokens.antt =====
-- A library of tokens that spell their payload out.
use sigis_backend.Base.{
  ℕ, zero, suc, ◌<◌, ◌≡◌, refl, ap, ◌∙◌, Option, none, some, [], ◌∷◌, ◌++◌, Text, length, take,
  drop, ltb, if◌then◌else◌, arith,
}
use sigis_backend.Time.{Datetime}
use sigis_backend.Domain.AccessTokens.{ClaimValue, AccessClaims, AccessJwt, Decoded}
use sigis_backend.UseCases.HostQr.{seconds}

-- Tokens that spell their payload: each text with its length in front.
abbrev enc_text : Option Text → Text
enc_text none = 0 ∷ []
enc_text (some t) = suc (length t) ∷ t

abbrev dec_text : Text → Option Text × Text
dec_text [] = (none, [])
dec_text (zero ∷ r) = (none, r)
dec_text (suc n ∷ r) = (some (take n r), drop n r)

abbrev enc_value : Option ClaimValue → Text
enc_value none = 0 ∷ []
enc_value (some (ClaimValue.text t)) = 1 ∷ enc_text (some t)
enc_value (some (ClaimValue.list_of o)) = 2 ∷ enc_text o
enc_value (some ClaimValue.other) = 3 ∷ []

abbrev as_text : Option Text × Text → Option ClaimValue × Text
as_text (none, r) = (none, r)
as_text (some t, r) = (some (ClaimValue.text t), r)

abbrev as_list : Option Text × Text → Option ClaimValue × Text
as_list (o, r) = (some (ClaimValue.list_of o), r)

abbrev dec_value : Text → Option ClaimValue × Text
dec_value [] = (none, [])
dec_value (zero ∷ r) = (none, r)
dec_value (suc zero ∷ r) = as_text (dec_text r)
dec_value (suc (suc zero) ∷ r) = as_list (dec_text r)
dec_value (suc (suc (suc n)) ∷ r) = (some ClaimValue.other, r)

take-length : (t r : Text) → take (length t) (t ++ r) ≡ t
take-length [] r = refl
take-length (c ∷ t) r = ap (λ (s : Text). c ∷ s) (take-length t r)

drop-length : (t r : Text) → drop (length t) (t ++ r) ≡ r
drop-length [] r = refl
drop-length (c ∷ t) r = drop-length t r

dec_enc_text : (o : Option Text) (r : Text) → dec_text (enc_text o ++ r) ≡ (o, r)
dec_enc_text none r = refl
dec_enc_text (some t) r = rw (take-length t r, drop-length t r) refl

dec_enc_value : (o : Option ClaimValue) (r : Text) → dec_value (enc_value o ++ r) ≡ (o, r)
dec_enc_value none r = refl
dec_enc_value (some (ClaimValue.text t)) r = rw (take-length t r, drop-length t r) refl
dec_enc_value (some (ClaimValue.list_of o)) r = rw (dec_enc_text o r) refl
dec_enc_value (some ClaimValue.other) r = refl

abbrev encode_claims : AccessClaims → Text
encode_claims c =
    enc_text c.sub ++ (enc_text c.email ++ (enc_value c.role ++ (enc_value c.roles ++ c.exp ∷ [])))

abbrev read_exp : Text → ℕ
read_exp [] = 0
read_exp (n ∷ r) = n

abbrev decode_claims : Text → AccessClaims
decode_claims t =
    let (sub, r1) = dec_text t in
    let (email, r2) = dec_text r1 in
    let (role, r3) = dec_value r2 in
    let (roles, r4) = dec_value r3 in
    record { sub = sub; email = email; role = role; roles = roles; exp = read_exp r4 }

abbrev live_or_expired : ℕ → AccessClaims → Decoded
live_or_expired now c = if ltb now c.exp then Decoded.payload c else Decoded.expired

abbrev pub spelling : AccessJwt
spelling = record {
  encode = λ key alg c. encode_claims c;
  decode = λ key alg now t. live_or_expired (seconds now) (decode_claims t);
}

decode-encode : (c : AccessClaims) → decode_claims (encode_claims c) ≡ c
decode-encode c =
    rw
      (
        dec_enc_text c.sub
            (enc_text c.email ++ (enc_value c.role ++ (enc_value c.roles ++ c.exp ∷ []))),
        dec_enc_text c.email (enc_value c.role ++ (enc_value c.roles ++ c.exp ∷ [])),
        dec_enc_value c.role (enc_value c.roles ++ c.exp ∷ []),
        dec_enc_value c.roles (c.exp ∷ []),
      )
      refl

pub spelling_trip :
    (now : Datetime) (c : AccessClaims)
    → seconds now < c.exp
    → spelling.decode [] [] now (spelling.encode [] [] c) ≡ Decoded.payload c
spelling_trip now c h =
    let live : live_or_expired (seconds now) c ≡ Decoded.payload c = ground (arith, h) in
    ap (live_or_expired (seconds now)) (decode-encode c) ∙ live
