-- ===== src/Tests/Missions.antt =====
-- Runs of the host's token and of the windows.
use sigis_backend.Base.{◌+◌, ◌≤◌, ◌*◌, ◌<◌, ◌≡◌, ◌↔◌, ◌⊎◌, refl, codes, arith}
use sigis_backend.Time.{instant, minutes, year_10000}
use sigis_backend.Errors.{ok, err, Failure}
use sigis_backend.Domain.ClientTime.{
  ensure_mission_window_client_time, ensure_mission_window_with_grace,
}
use sigis_backend.Domain.Windows.{grace_iff}
use sigis_backend.UseCases.Missions.{new_mission}
use sigis_backend.UseCases.HostQr.{host_qr_claims, create_host_qr_jwt, verify_host_qr_jwt}
use sigis_backend.UseCases.HostQr.RoundTrip.{Reads, host_qr_round_trip}
use sigis_backend.Tests.World.{at, planning, claims, world}

grace_iff_example :
    ((ensure_mission_window_with_grace (at 5) (at 10) (at 60) 15 15 ≡ ok tt) ↔ (
      (minutes 15 ≤ (at 10).wall)
      × ((at 60).wall + minutes 15 < year_10000)
      × (instant (at 10) ≤ instant (at 5) + minutes 15)
      × (instant (at 5) ≤ instant (at 60) + minutes 15)))
    × ((ensure_mission_window_with_grace (at 5) (at 10) (at 60) 15 15 ≡ err Failure.overflow_error)
        ↔ (((at 10).wall < minutes 15) ⊎ (year_10000 ≤ (at 60).wall + minutes 15)))
    × ((ensure_mission_window_with_grace (at 5) (at 10) (at 60) 0 0 ≡ ok tt)
        ↔ (ensure_mission_window_client_time (at 5) (at 10) (at 60) ≡ ok tt))
grace_iff_example = grace_iff (at 5) (at 10) (at 60) 15 15 (ground arith)

-- The library of the tests gives back the texts of the claims.
Reads-back :
    (host_qr_claims 30 (new_mission planning 20 77) 77 (at 5) (codes "abcdefgh")).iat * 1000000
      ≤ instant (at 10)
    → instant (at 10)
      < (host_qr_claims 30 (new_mission planning 20 77) 77 (at 5) (codes "abcdefgh")).exp * 1000000
    → Reads world.jwt world.settings
        (at 10)
        (host_qr_claims 30 (new_mission planning 20 77) 77 (at 5) (codes "abcdefgh"))
unfolding host_qr_claims new_mission
Reads-back issued alive = record {
  back = claims;
  decoded = refl;
  sub = refl;
  ht = refl;
  typ = refl;
  jti = refl;
}

host_qr_round_trip_example :
    verify_host_qr_jwt world.jwt world.settings
      (codes "signed")
      (new_mission planning 20 77)
      (at 10)
    ≡ ok (codes "abcdefgh")
unfolding create_host_qr_jwt new_mission instant
host_qr_round_trip_example =
    host_qr_round_trip world.jwt world.settings 30 (new_mission planning 20 77) (at 5) (at 10)
      (codes "abcdefgh") (codes "signed") 77 Reads-back refl refl (ground arith) (ground arith)
      (ground arith) (ground arith) (ground arith)
