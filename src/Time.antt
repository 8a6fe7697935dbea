-- ===== src/Time.antt =====
-- `datetime` and `timedelta` as the program uses them, and the normalisation `_aware` of
-- domain/shared/client_time_validation.py (copied in copresence_rules.py, fallback_validation.py
-- and check_out_visit.py, and written out in transitions.py).
use sigis_backend.Base.{ℕ, ◌+◌, ◌-◌, ◌*◌, ◌≡◌, Bool, Option, none, some, arith, leb, ltb}
use sigis_backend.Base.Int.{ℤ, sub_ℕ}

-- Microseconds, the resolution of `datetime`.
abbrev pub minutes : ℕ → ℕ
minutes n = n * 60000000

abbrev pub day : ℕ
day = 86400000000

-- A time zone by its distance from the eastern bound: 24 hours minus `utcoffset()`, which Python
-- keeps strictly between -24 and 24 hours. So it is a positive number.
pub record Tz : Type 0 where
  pub west : ℕ

abbrev pub utc : Tz
utc = record { west = day }

-- The clock reading in microseconds since year 1, and the zone, which may be missing.
pub record Datetime : Type 0 where
  pub wall : ℕ
  pub tzinfo : Option Tz

abbrev tz_or_utc : Option Tz → Tz
tz_or_utc none = utc
tz_or_utc (some z) = z

unfoldable pub aware : Datetime → Datetime
aware dt = record dt { tzinfo = some (tz_or_utc dt.tzinfo) }

-- The instant of an aware datetime, counted from 24 hours before year 1 in UTC, so that it is
-- never negative.
unfoldable pub instant : Datetime → ℕ
instant dt = dt.wall + (tz_or_utc dt.tzinfo).west

-- `now.astimezone(UTC) if now.tzinfo else now.replace(tzinfo=UTC)`
unfoldable pub to_utc : Datetime → Datetime
to_utc dt = record { wall = dt.wall + (tz_or_utc dt.tzinfo).west - day; tzinfo = some utc }

-- `datetime.__le__` and `__gt__` between aware values.
abbrev pub dt_le : Datetime → Datetime → Bool
dt_le a b = leb (instant a) (instant b)

abbrev pub dt_lt : Datetime → Datetime → Bool
dt_lt a b = ltb (instant a) (instant b)

-- The first clock reading that `datetime` cannot hold: midnight after the end of year 9999.
abbrev pub year_10000 : ℕ
year_10000 = 3652059 * day

-- `dt + timedelta` and `dt - timedelta` for a delta that is not negative. Python raises
-- OverflowError where the reading would leave the years 1 to 9999. Where a mission's window is
-- widened, that is tested (Domain.ClientTime); all other uses add minutes or hours of the settings
-- to a reading of the clock.
unfoldable pub plus_delta : Datetime → ℕ → Datetime
plus_delta dt d = record dt { wall = dt.wall + d }

unfoldable pub minus_delta : Datetime → ℕ → Datetime
minus_delta dt d = record dt { wall = dt.wall - d }

-- `a - b`, a signed `timedelta` in microseconds.
unfoldable pub elapsed : Datetime → Datetime → ℤ
elapsed a b = sub_ℕ (instant a) (instant b)

-- Normalising a datetime does not move its instant.
pub instant-aware : (dt : Datetime) → instant (aware dt) ≡ instant dt
unfolding instant aware
instant-aware dt = ground arith
