-- ===== src/Tests/World.antt =====
-- A small world: one establishment, an inspector, a host, one mission, and the requests of one
-- visit.
use sigis_backend.Base.{
  ℕ, ◌+◌, ◌-◌, ◌*◌, ◌++◌, Option, none, some, true, false, List, [], ◌∷◌, Text, codes, leb, ltb,
  if◌then◌else◌,
}
use sigis_backend.Base.Float.{FloatOps}
use sigis_backend.Base.Uuid.{uuid_text}
use sigis_backend.Time.{Datetime, minutes, utc, day}
use sigis_backend.Domain.Visit.{HostValidationMode, app_gps}
use sigis_backend.Domain.Establishment.{Establishment}
use sigis_backend.Domain.Roles.{Role}
use sigis_backend.Domain.Users.{User}
use sigis_backend.Store.{Db}
use sigis_backend.UseCases.CheckIn.{CheckInInspectorCommand, CheckInDraw}
use sigis_backend.UseCases.HostQr.{Claims, Decoded}
use sigis_backend.UseCases.ConfirmHost.{ConfirmWorld, ConfirmHostCommand}
use sigis_backend.UseCases.CheckOut.{CheckOutCommand}
use sigis_backend.UseCases.Missions.{CreateMissionCommand, SubmitMissionOutcomeCommand}
use sigis_backend.Safety.Requests.{Request, start}

-- Whole numbers in place of floats: distances come out as 0 or as very large.
abbrev pub whole : FloatOps
whole = record {
  of_int = λ n. n;
  le = leb;
  gt = λ a b. ltb b a;
  sub = λ a b. a - b;
  add = λ a b. a + b;
  mul = λ a b. a * b;
  half = λ a. a;
  square = λ a. a * a;
  radians = λ a. a;
  sin = λ a. a;
  cos = λ a. 1;
  asin = λ a. a;
  sqrt = λ a. a;
  min = λ a b. if leb a b then a else b;
}

-- So many minutes after day 700000.
abbrev pub at : ℕ → Datetime
at n = record { wall = 700000 * day + minutes n; tzinfo = some utc }

abbrev pub school : Establishment
school = record {
  id = 10;
  name = codes "Lycee";
  center_lat = 4;
  center_lon = 11;
  radius_strict_m = 50;
  radius_relaxed_m = 200;
  geometry_version = 1;
  minesec_code = none;
  establishment_type = codes "lycee";
  contact_email = none;
  contact_phone = none;
  territory_code = none;
  parent_establishment_id = none;
  designated_host_user_id = some 2;
  geometry_validated_at = none;
  geometry_validated_by_user_id = none;
}

abbrev pub user : ℕ → Role → User
user n role = record {
  id = n;
  email = n ∷ codes "@sigis.cm";
  full_name = codes "Name";
  phone_number = codes "+23767000000" ++ (48 + n) ∷ [];
  hashed_password = codes "#" ++ n ∷ [];
  role = role;
  is_active = true;
  created_at = at 0;
  updated_at = none;
}

abbrev pub staff : List User
staff = user 1 Role.inspector ∷ user 2 Role.host ∷ user 3 Role.national_admin ∷ []

abbrev pub empty : Db
empty = start (school ∷ []) staff

abbrev pub planning : CreateMissionCommand
planning = record {
  establishment_id = 10;
  inspector_id = 1;
  window_start = at 0;
  window_end = at 240;
  sms_code = none;
  objective = none;
  plan_reference = none;
  requires_approval = false;
  designated_host_user_id = none;
}

abbrev pub planned : Request
planned = Request.plan planning 20 77

abbrev pub arrival : HostValidationMode → CheckInInspectorCommand
arrival mode = record {
  mission_id = 20;
  inspector_user_id = 1;
  latitude = 4;
  longitude = 11;
  client_request_id = codes "k1";
  host_validation_mode = mode;
}

abbrev pub arrival_draw : CheckInDraw
arrival_draw = record { now = at 10; visit_id = 30; proof_id = 40 }

abbrev pub claims : Claims
claims = record {
  sub = some (uuid_text 20);
  ht = some (uuid_text 77);
  typ = some (codes "host_qr");
  jti = some (codes "abcdefgh");
  iat = 0;
  exp = 0;
}

abbrev pub world : ConfirmWorld
world = record {
  floats = whole;
  jwt = record {
    encode = λ key algorithm c. codes "signed";
    decode = λ key algorithm now token. Decoded.payload claims;
  };
  settings = record { secret_key = codes "secret"; jwt_algorithm = codes "HS256" };
  now = at 20;
  verify_now = at 20;
  proof_id = 41;
  event_id = 50;
}

abbrev pub confirmation : Option Text → ConfirmHostCommand
confirmation token = record {
  site_visit_id = 30;
  mission_id = 20;
  host_user_id = 2;
  client_request_id = codes "k2";
  latitude = some 4;
  longitude = some 11;
  qr_token = none;
  qr_jwt = token;
  sms_code = none;
}

abbrev pub departure : CheckOutCommand
departure = record {
  site_visit_id = 30;
  mission_id = 20;
  inspector_user_id = 1;
  client_request_id = codes "k3";
}

-- The requests up to the confirmation of a visit.
abbrev pub arrived : HostValidationMode → List Request
arrived mode = planned ∷ Request.arrive whole (arrival mode) arrival_draw ∷ []

abbrev pub visited : List Request
visited =
    planned
    ∷ Request.arrive whole (arrival app_gps) arrival_draw
    ∷ Request.confirm world (confirmation none)
    ∷ []

abbrev pub completed : List Request
completed =
    planned
    ∷ Request.arrive whole (arrival app_gps) arrival_draw
    ∷ Request.confirm world (confirmation none)
    ∷ Request.leave departure (at 60)
    ∷ []

abbrev pub report : SubmitMissionOutcomeCommand
report = record {
  mission_id = 20;
  summary = codes "done";
  notes = none;
  compliance_level = none;
  author_user_id = 1;
}
