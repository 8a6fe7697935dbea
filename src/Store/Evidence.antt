-- ===== src/Store/Evidence.antt =====
-- The repositories of proofs, co-presence events and consumed QR tokens, in
-- infrastructure/persistence/sqlalchemy/extra_repos.py.
use sigis_backend.Base.{ℕ, Bool, true, false, [], ◌∷◌, ◌++◌, Text, text_eq, is_some, if◌then◌else◌}
use sigis_backend.Base.Table.{first}
use sigis_backend.Time.{Datetime}
use sigis_backend.Errors.{ok}
use sigis_backend.Domain.Presence.{PresenceProof, CoPresenceEvent}
use sigis_backend.Domain.Visit.{HostValidationMode}
use sigis_backend.Store.Tables.{Db, UsedQrJti}
use sigis_backend.Store.Session.{Exec}

unfoldable pub add_proof : PresenceProof → Exec (Unit {0})
add_proof proof db = (ok tt, record db { presence_proofs = db.presence_proofs ++ proof ∷ [] })

unfoldable pub add_event : CoPresenceEvent → HostValidationMode → Exec (Unit {0})
add_event event mode db = (
  ok tt,
  record db {
    copresence_events =
        db.copresence_events ++ record { event = event; host_validation_mode = mode } ∷ [];
  },
)

-- A token was consumed before: `session.get(UsedQrJtiModel, jti)` finds a row.
unfoldable pub is_consumed : Text → Db → Bool
is_consumed jti db = is_some (first (λ (r : UsedQrJti). text_eq r.jti jti) db.used_qr_jti)

-- `UsedQrJtiRepositoryImpl.consume`
unfoldable pub consume : Text → ℕ → Datetime → Exec Bool
consume jti mission_id consumed_at db = if is_consumed jti db then (ok false, db) else (
  ok true,
  record db {
    used_qr_jti =
        db.used_qr_jti
        ++ record { jti = jti; mission_id = mission_id; consumed_at = consumed_at } ∷ [];
  },
)
