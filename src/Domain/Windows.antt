-- ===== src/Domain/Windows.antt =====
-- The windows of a mission on the client's clock (domain/shared/client_time_validation.py).
use sigis_backend.Base.{ℕ, ◌≤◌, ◌<◌, ◌+◌, ◌≡◌, ◌↔◌, ◌⊎◌, arith}
use sigis_backend.Time.{Datetime, instant, minutes, year_10000}
use sigis_backend.Errors.{ok, err, Failure}
use sigis_backend.Domain.ClientTime.{
  ensure_mission_window_client_time, ensure_mission_window_with_grace,
}

-- With a grace before and after, the client's time is accepted exactly if the widened window stays
-- in the years of `datetime` and the time's instant is in it; and it is an OverflowError exactly if
-- the widened window leaves those years. For a window that ends in those years, graces of 0
-- accept exactly what the test without grace accepts.
pub grace_iff :
    (captured start end : Datetime) (before after : ℕ)
    → end.wall < year_10000
    → ((ensure_mission_window_with_grace captured start end before after ≡ ok tt) ↔ (
        (minutes before ≤ start.wall)
        × (end.wall + minutes after < year_10000)
        × (instant start ≤ instant captured + minutes before)
        × (instant captured ≤ instant end + minutes after)))
      × ((ensure_mission_window_with_grace captured start end before after
            ≡ err Failure.overflow_error)
          ↔ ((start.wall < minutes before) ⊎ (year_10000 ≤ end.wall + minutes after)))
      × ((ensure_mission_window_with_grace captured start end 0 0 ≡ ok tt)
          ↔ (ensure_mission_window_client_time captured start end ≡ ok tt))
unfolding ensure_mission_window_with_grace ensure_mission_window_client_time instant
grace_iff captured start end before after valid = (
  (λ h. ground (arith, h), λ h. ground (arith, h)),
  (λ h. ground (arith, h), λ h. ground (arith, h)),
  (λ h. ground (arith, h, valid), λ h. ground (arith, h, valid)),
)

-- A client's time that is accepted without a grace is accepted with any that keeps the window in
-- the years of `datetime`.
pub grace_widens :
    (captured start end : Datetime) (before after : ℕ)
    → minutes before ≤ start.wall
    → end.wall + minutes after < year_10000
    → ensure_mission_window_client_time captured start end ≡ ok tt
    → ensure_mission_window_with_grace captured start end before after ≡ ok tt
unfolding ensure_mission_window_client_time ensure_mission_window_with_grace instant
grace_widens captured start end before after low high h = ground (arith, low, high, h)
