-- ===== src/Api/RateLimit.antt =====
-- api/rate_limit.py: at most so many requests a minute for each prefix and client address. Clock
-- readings are whole numbers of microseconds, and `now - 60.0` is exact.
pub mod Window
use sigis_backend.Base.{
  ℕ, ◌+◌, Bool, true, false, Option, none, some, List, [], ◌∷◌, ◌++◌, Text, codes, text_eq, length,
  select, ltb, leb, if◌then◌else◌,
}
use sigis_backend.Base.Int.{ℤ, pos, negsuc}
use sigis_backend.Time.{minutes}
use sigis_backend.Errors.{Result, ok, err, http_exception}

-- `_buckets`, a `defaultdict(list)`.
abbrev pub Buckets : Type 0
Buckets = Text → List ℕ

abbrev pub set_bucket : Text → List ℕ → Buckets → Buckets
set_bucket key ts buckets k = if text_eq k key then ts else buckets k

-- `f"{key_prefix}:{host}"`, where the client may be unknown.
abbrev pub bucket_key : Text → Option Text → Text
bucket_key key_prefix none = key_prefix ++ b':' ∷ codes "unknown"
bucket_key key_prefix (some host) = key_prefix ++ b':' ∷ host

-- `t > cutoff`, with `cutoff = now - 60.0`.
abbrev pub is_recent : ℕ → ℕ → Bool
is_recent now t = ltb now (t + minutes 1)

pub record Hit : Type 0 where
  pub key_prefix : Text
  pub host : Option Text
  pub now : ℕ

-- `max_per_minute <= 0`
abbrev pub is_off : ℤ → Bool
is_off (pos n) = leb n 0
is_off (negsuc n) = true

-- `n >= max_per_minute`
abbrev pub reaches : ℕ → ℤ → Bool
reaches n (pos limit) = leb limit n
reaches n (negsuc limit) = true

-- `enforce_rate_limit`. The bucket is pruned whether the request is refused or not.
unfoldable pub enforce_rate_limit : ℤ → Hit → Buckets → Result (Unit {0}) × Buckets
enforce_rate_limit max_per_minute hit buckets =
    let key = bucket_key hit.key_prefix hit.host in
    let bucket = select (is_recent hit.now) (buckets key) in
    if is_off max_per_minute
    then (ok tt, buckets)
    else if reaches (length bucket) max_per_minute
    then (err (http_exception 429), set_bucket key bucket buckets)
    else (ok tt, set_bucket key (bucket ++ hit.now ∷ []) buckets)

-- The answers to requests one after the other.
unfoldable pub answers : ℤ → List Hit → Buckets → List (Result (Unit {0}))
answers limit [] buckets = []
answers limit (hit ∷ hits) buckets =
    (enforce_rate_limit limit hit buckets).0
    ∷ answers limit hits (enforce_rate_limit limit hit buckets).1
