-- ===== src/Api/Telemetry.antt =====
-- `TelemetryStore` of api/middleware/access_log.py, the last events in memory, and the routes of
-- api/v1/telemetry.py over it.
pub mod Buffer
use mathlib.Core.List.{reverse}
use sigis_backend.Base.{
  ℕ, zero, suc, ◌-◌, Bool, true, false, not, Option, none, some, is_some, List, [], ◌∷◌, ◌++◌, map,
  Text, codes, text_eq, length, select, take, drop, leb, ◌==◌, if◌then◌else◌,
}
use sigis_backend.Base.Float.{Float}
use sigis_backend.Time.{Datetime}
use sigis_backend.Errors.{Result, ok, err, Failure}

-- `meta`, a JSON object, is opaque.
pub record TelemetryEvent : Type 0 where
  pub id : Text
  pub ts : Datetime
  pub kind : Text
  pub method : Text
  pub path : Text
  pub status_code : Option ℕ
  pub duration_ms : Option Float
  pub user_id : Option Text
  pub request_id : Option Text
  pub client_ip : Text
  pub user_agent : Text
  pub action : Text
  pub resource : Text
  pub meta : Text

-- `deque(maxlen=maxlen)`, the oldest event first.
pub record TelemetryStore : Type 0 where
  pub maxlen : ℕ
  pub buf : List TelemetryEvent

-- `deque.append`: over the bound, the oldest is dropped.
unfoldable pub push : TelemetryEvent → TelemetryStore → TelemetryStore
push e store = record store {
  buf =
      let longer = store.buf ++ e ∷ [] in
      if leb (length longer) store.maxlen then longer else drop 1 longer;
}

-- `if kind:` and `if user_id:`
abbrev pub has_kind : Option Text → TelemetryEvent → Bool
has_kind none e = true
has_kind (some []) e = true
has_kind (some (c ∷ s)) e = text_eq e.kind (c ∷ s)

abbrev pub is_user : Option Text → Text → Bool
is_user none u = false
is_user (some v) u = text_eq v u

abbrev pub has_user : Option Text → TelemetryEvent → Bool
has_user none e = true
has_user (some []) e = true
has_user (some (c ∷ s)) e = is_user e.user_id (c ∷ s)

-- `list_events`: a page of the events, the newest first, and their number.
unfoldable pub list_events :
    Option Text → Option Text → ℕ → ℕ → TelemetryStore → List TelemetryEvent × ℕ
list_events kind user_id skip limit store =
    let items = select (has_user user_id) (select (has_kind kind) (reverse store.buf)) in
    (take limit (drop skip items), length items)

-- The machine's arithmetic: `round(a / b * 100, 1)`, `round(sum(xs) / len(xs), 2)`,
-- `round(x, 2)`, `int(n * 0.95)` and `x <= y`.
pub record StatsOps : Type 0 where
  pub percent : ℕ → ℕ → Float
  pub mean : List Float → Float
  pub round2 : Float → Float
  pub int95 : ℕ → ℕ
  pub le : Float → Float → Bool
  pub nought : Float

abbrev pub insert : StatsOps → Float → List Float → List Float
insert ops x [] = x ∷ []
insert ops x (y ∷ ys) = let rest = insert ops x ys in if ops.le y x then y ∷ rest else x ∷ y ∷ ys

-- `sorted`
abbrev pub sort : StatsOps → List Float → List Float
sort ops [] = []
sort ops (x ∷ xs) = insert ops x (sort ops xs)

-- `[e.duration_ms for e in items if e.duration_ms is not None]`
abbrev pub durations : List TelemetryEvent → List Float
durations [] = []
durations (e ∷ es) =
    let rest = durations es in elim e.duration_ms [ none ↦ rest | some d ↦ d ∷ rest ]

-- `xs[i]`, where the list is not empty.
abbrev pub at_or : Float → ℕ → List Float → Float
at_or d i [] = d
at_or d zero (x ∷ xs) = x
at_or d (suc i) (x ∷ xs) = at_or d i xs

-- `e.status_code and e.status_code >= 400`
abbrev pub is_error : TelemetryEvent → Bool
is_error e = elim e.status_code [ none ↦ false | some code ↦ leb 400 code ]

abbrev pub is_http : TelemetryEvent → Bool
is_http e = text_eq e.kind (codes "http")

-- The dictionary of `stats`; the last key may be missing.
pub record Stats : Type 0 where
  pub total_requests : ℕ
  pub error_rate_pct : Float
  pub avg_duration_ms : Float
  pub p95_duration_ms : Float
  pub buffer_size : ℕ
  pub frontend_events : Option ℕ

-- `round(durations[p95_idx], 2) if durations else 0`, and the mean alike.
abbrev pub p95 : StatsOps → List Float → Float
p95 ops [] = ops.nought
p95 ops (x ∷ xs) =
    ops.round2 (at_or ops.nought (ops.int95 (length (x ∷ xs)) - 1) (sort ops (x ∷ xs)))

abbrev pub average : StatsOps → List Float → Float
average ops [] = ops.nought
average ops (x ∷ xs) = ops.mean (sort ops (x ∷ xs))

unfoldable pub stats : StatsOps → TelemetryStore → Stats
stats ops store =
    let http = select is_http store.buf in
    if length http == 0
    then record {
      total_requests = 0;
      error_rate_pct = ops.nought;
      avg_duration_ms = ops.nought;
      p95_duration_ms = ops.nought;
      buffer_size = 0;
      frontend_events = none;
    }
    else record {
      total_requests = length http;
      error_rate_pct = ops.percent (length (select is_error http)) (length http);
      avg_duration_ms = average ops (durations http);
      p95_duration_ms = p95 ops (durations http);
      buffer_size = length store.buf;
      frontend_events = some (length (select (λ e. not (is_http e)) store.buf));
    }

-- `TelemetryStatsOut(**...)`: a field without a default that is missing is a `ValidationError`, a
-- kind of `ValueError`.
abbrev stats_out : Stats → Result Stats
stats_out s = if is_some s.frontend_events then ok s else err Failure.value_error

-- The route `get_stats`.
unfoldable pub get_stats : StatsOps → TelemetryStore → Result Stats
unfolding stats
get_stats ops store = stats_out (stats ops store)
