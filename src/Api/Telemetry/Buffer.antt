-- ===== src/Api/Telemetry/Buffer.antt =====
-- The buffer holds the last events that were pushed.
use sigis_backend.Base.{ℕ, ◌-◌, List, [], ◌∷◌, length, drop}
use sigis_backend.Api.Telemetry.{TelemetryEvent, TelemetryStore, push}

-- Events pushed one after the other.
unfoldable pub push_all : List TelemetryEvent → TelemetryStore → TelemetryStore
push_all [] store = store
push_all (e ∷ es) store = push_all es (push e store)

-- The last `n` items.
abbrev pub last : {A : Type 0} → ℕ → List A → List A
last n xs = drop (length xs - n) xs
