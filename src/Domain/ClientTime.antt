-- ===== src/Domain/ClientTime.antt =====
-- domain/shared/client_time_validation.py: the mission window on the client's clock. A bound that
-- leaves the years of `datetime` is an OverflowError. The graces are not negative.
use sigis_backend.Base.{ℕ, ◌&&◌, ◌||◌, leb, ltb, if◌then◌else◌}
use sigis_backend.Time.{Datetime, aware, dt_le, minutes, year_10000, plus_delta, minus_delta}
use sigis_backend.Errors.{Result, ok, err, raised, Failure, ErrorClass, Code}

unfoldable pub ensure_mission_window_client_time :
    Datetime → Datetime → Datetime → Result (Unit {0})
unfolding aware
ensure_mission_window_client_time captured_at_client window_start window_end =
    let ct = aware captured_at_client in
    let ws = aware window_start in
    let we = aware window_end in
    if dt_le ws ct && dt_le ct we
    then ok tt
    else err (raised ErrorClass.domain_error_base Code.mission_expired_client_time)

unfoldable pub ensure_mission_window_with_grace :
    Datetime → Datetime → Datetime → ℕ → ℕ → Result (Unit {0})
unfolding aware plus_delta minus_delta
ensure_mission_window_with_grace captured_at_client window_start window_end before after =
    let effective_start = minus_delta (aware window_start) (minutes before) in
    let effective_end = plus_delta (aware window_end) (minutes after) in
    let ct = aware captured_at_client in
    if ltb window_start.wall (minutes before) || leb year_10000 effective_end.wall
    then err Failure.overflow_error
    else if dt_le effective_start ct && dt_le ct effective_end
    then ok tt
    else err (raised ErrorClass.domain_error_base Code.mission_expired_with_grace)
