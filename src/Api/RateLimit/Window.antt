-- ===== src/Api/RateLimit/Window.antt =====
-- The pruned buckets answer like a log that forgets nothing.
use sigis_backend.Base.{
  ℕ, ◌+◌, ◌==◌, ◌≤◌, ◌≡◌, refl, Bool, Option, none, some, codes, ltb, Bool-cases, inl, inr, List,
  [], ◌∷◌, ◌++◌, Text, text_eq, text_eq_iff, length, select, if◌then◌else◌, arith,
}
use sigis_backend.Base.Int.{ℤ, pos, negsuc}
use mathlib.Core.Path.{subst}
use sigis_backend.Errors.{Result, ok, err, http_exception}
use sigis_backend.Api.RateLimit.{
  Buckets, Hit, set_bucket, bucket_key, is_recent, is_off, reaches, enforce_rate_limit, answers,
}

abbrev or_unknown : Option Text → Text
or_unknown none = codes "unknown"
or_unknown (some host) = host

-- Whom a request counts for: the prefix and the client's address, or "unknown".
abbrev address : Hit → Text
address hit = hit.key_prefix ++ b':' ∷ or_unknown hit.host

-- Whether a request was admitted less than 60 seconds before `now`.
abbrev counts_at : ℕ → ℕ → Bool
counts_at now t = ltb now (t + 60000000)

-- What the limit means: a request is admitted if fewer than the limit were admitted for its
-- address in the minute before; the log keeps every admitted request. A limit that is not
-- positive admits all.
unfoldable pub admit : ℤ → Hit → Buckets → Result (Unit {0}) × Buckets
admit (negsuc n) hit log = (ok tt, log)
admit (pos n) hit log =
    if n == 0
    then (ok tt, log)
    else if ltb (length (select (counts_at hit.now) (log (address hit)))) n
    then (
      ok tt,
      λ key. if text_eq key (address hit) then log (address hit) ++ hit.now ∷ [] else log key,
    )
    else (err (http_exception 429), log)

-- The code's tests, on a log that is never pruned.
unfoldable unpruned : ℤ → Hit → Buckets → Result (Unit {0}) × Buckets
unpruned limit hit log =
    let key = bucket_key hit.key_prefix hit.host in
    if is_off limit
    then (ok tt, log)
    else if reaches (length (select (is_recent hit.now) (log key))) limit
    then (err (http_exception 429), log)
    else (ok tt, set_bucket key (log key ++ hit.now ∷ []) log)

bucket_key-address :
    (hit : Hit) (host : Option Text)
    → bucket_key hit.key_prefix host ≡ hit.key_prefix ++ b':' ∷ or_unknown host
bucket_key-address hit none = refl
bucket_key-address hit (some h) = refl

unpruned-admit :
    (limit : ℤ) (hit : Hit) (log : Buckets) → unpruned limit hit log ≡ admit limit hit log
unfolding unpruned admit
unpruned-admit (negsuc n) hit log = refl
unpruned-admit (pos n) hit log = rw (bucket_key-address hit hit.host) (ground arith)

unfoldable pub log_answers : ℤ → List Hit → Buckets → List (Result (Unit {0}))
log_answers limit [] log = []
log_answers limit (hit ∷ hits) log =
    (admit limit hit log).0 ∷ log_answers limit hits (admit limit hit log).1

-- The clock does not go back.
abbrev pub InOrder : ℕ → List Hit → Type 0
InOrder since [] = Unit
InOrder since (hit ∷ hits) = (since ≤ hit.now) × InOrder hit.now hits

-- From an instant on, both see the same recent requests.
Agree : ℕ → Buckets → Buckets → Type 0
Agree since buckets log =
    (key : Text) (now : ℕ)
    → since ≤ now
    → select (is_recent now) (buckets key) ≡ select (is_recent now) (log key)

select_again :
    (since now : ℕ) (ts : List ℕ)
    → since ≤ now
    → select (is_recent now) (select (is_recent since) ts) ≡ select (is_recent now) ts
select_again since now [] h = refl
select_again since now (t ∷ ts) h = ground (arith, select_again since now ts h)

select-append : (p : ℕ → Bool) (xs ys : List ℕ) → select p (xs ++ ys) ≡ select p xs ++ select p ys
select-append p [] ys = refl
select-append p (x ∷ xs) ys = ground (arith, select-append p xs ys)

module _ (limit : ℤ) (hit : Hit) (b l : Buckets) (since : ℕ) (later : since ≤ hit.now)
    (a : Agree since b l) where
  same_answer : (enforce_rate_limit limit hit b).0 ≡ (unpruned limit hit l).0
  unfolding enforce_rate_limit unpruned Agree
  same_answer = rw (a (bucket_key hit.key_prefix hit.host) hit.now later) (ground arith)

  set_agree :
      (k key : Text) (now : ℕ) (xs ys : List ℕ)
      → select (is_recent now) (b k) ≡ select (is_recent now) (l k)
      → select (is_recent now) xs ≡ select (is_recent now) ys
      → select (is_recent now) (set_bucket key xs b k)
        ≡ select (is_recent now) (set_bucket key ys l k)
  set_agree k key now xs ys e e' = ground (arith, e, e')

  pruned_agree :
      (k key : Text) (now : ℕ) (xs : List ℕ)
      → select (is_recent now) (b k) ≡ select (is_recent now) (l k)
      → select (is_recent now) xs ≡ select (is_recent now) (l key)
      → select (is_recent now) (set_bucket key xs b k) ≡ select (is_recent now) (l k)
  pruned_agree k key now xs e e' = elim (Bool-cases (text_eq k key)) [
    | inl same ↦ rw (same, (text_eq_iff k key).0 same) e'
    | inr other ↦ rw other e
  ]

  still-Agree : Agree hit.now (enforce_rate_limit limit hit b).1 (unpruned limit hit l).1
  unfolding enforce_rate_limit unpruned Agree
  still-Agree k now h =
      let key = bucket_key hit.key_prefix hit.host in
      let here = a k now (omega (arith, later, h)) in
      elim (Bool-cases (is_off limit)) [
        | inl off ↦ rw off here
        | inr on ↦ elim (Bool-cases (reaches (length (select (is_recent hit.now) (l key))) limit)) [
          | inl full ↦
              rw (on, a key hit.now later, full)
                (pruned_agree k key now (select (is_recent hit.now) (l key)) here
                  (select_again hit.now now (l key) h))
          | inr free ↦
              rw (on, a key hit.now later, free)
                (set_agree k key now (select (is_recent hit.now) (l key) ++ hit.now ∷ [])
                  (l key ++ hit.now ∷ []) here
                  (rw
                    (
                      select-append (is_recent now) (select (is_recent hit.now) (l key))
                          (hit.now ∷ []),
                      select-append (is_recent now) (l key) (hit.now ∷ []),
                      select_again hit.now now (l key) h,
                    )
                    refl))
        ]
      ]

same_answers :
    (limit : ℤ) (hits : List Hit) (since : ℕ) (b l : Buckets)
    → InOrder since hits
    → Agree since b l
    → answers limit hits b ≡ log_answers limit hits l
unfolding answers log_answers
same_answers limit [] since b l h a = refl
same_answers limit (hit ∷ hits) since b l h a =
    rw
      (
        same_answer limit hit b l since h.0 a,
        unpruned-admit limit hit l,
        same_answers limit hits hit.now (enforce_rate_limit limit hit b).1 (admit limit hit l).1 h.1
            (subst (λ x. Agree hit.now (enforce_rate_limit limit hit b).1 x.1)
              (unpruned-admit limit hit l) (still-Agree limit hit b l since h.0 a)),
      )
      refl

-- From empty buckets, as long as the clock does not go back, the pruned buckets answer each request
-- as a log of every admitted request does: it is refused with 429 exactly when as many as the
-- limit were admitted for the same prefix and host, joined by a colon, less than 60 seconds
-- before, and never where the limit is not positive.
pub rate_limit_refines :
    (limit : ℤ) (hits : List Hit) (since : ℕ)
    → InOrder since hits
    → answers limit hits (λ key. []) ≡ log_answers limit hits (λ key. [])
unfolding Agree
rate_limit_refines limit hits since h =
    same_answers limit hits since (λ key. []) (λ key. []) h (λ k n q. refl)
