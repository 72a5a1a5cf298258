-- ===== src/Attendance/Tests.antt =====
-- attendance/ on small inputs.
use vellora_backend.Prelude.{
  ℕ, ◌+◌, ◌≡◌, Bool, false, not, Option, none, some, String, List, [], ◌∷◌, ◌==◌, ◌%◌, ◌-◌, refl,
}
use vellora_backend.Nest.{ok, conflict}
use vellora_backend.Access.Principal.{AuthenticatedUser, owner, Request}
use vellora_backend.Devices.Model as Devices
use vellora_backend.Terminals.Qr.{Library}
use vellora_backend.Terminals.Model as Terminals
use vellora_backend.Attendance.Model.{AttendanceLog, LogStatus, closed, online, qr, manual, Db}
use vellora_backend.Attendance.Rules.{PunchDto, ClockInDto}
use vellora_backend.Attendance.Service
use vellora_backend.Attendance.Batches.{SyncEvent, clock_in, clock_out, sync}
use vellora_backend.Terminals.Service.{validate_qr_token}
use vellora_backend.Devices.Service.{assert_can_clock_in}
use vellora_backend.Attendance.Kiosk.{KioskPunchDto, Punched, log, kiosk_punch, own_employee, act}
use vellora_backend.Attendance.OnePunch.{IsOnce}
use vellora_backend.Attendance.Requests.{here, then, clocks_in, syncs, Reaches-IsOnce}
use vellora_backend.Attendance.Replay.{IsSynced, sync-IsSynced}
use vellora_backend.Attendance.Closing.{IsShut, clock_out-IsShut}
use vellora_backend.Attendance.Authority.{IsAuthorised, kiosk_punch-IsAuthorised}

abbrev worker : AuthenticatedUser
worker = record {
  supabase_uid = 90;
  user_id = 5;
  memberships = [];
  company_id = some 1;
  role = some owner;
  scope_type = none;
  scope_ids = none;
  platform_role = none;
}

abbrev at_time : ℕ → Request
at_time now = record { user = some worker; now = now; uuid = λ n. 70 + n }

-- A column that takes whole minutes only.
abbrev is_fraction : ℕ → ℕ → Bool
is_fraction since until = not ((until - since) % 60000 == 0)

abbrev id_of : List ℕ → Option ℕ
id_of (c ∷ []) = some (c - 59)
id_of _ = none

abbrev plain : Library
plain = record {
  to_base64url = λ t. t;
  from_base64url = λ t. some t;
  id_text = λ i. (i + 59) ∷ [];
  id_of_text = id_of;
  secret = λ n. (n + 100) ∷ [];
}

abbrev same : String → String
same s = s

abbrev iso : ℕ → String
iso at = "2026-11-26T00:00:00.000Z"

abbrev no_date : String → Option ℕ
no_date s = none

abbrev doors : Terminals.Db
doors = record {
  terminals =
      record {
        id = 3;
        company_id = 1;
        store_id = 2;
        label = "Door";
        status = Terminals.active;
        qr_secret = some (107 ∷ []);
        qr_rotated_at = some 1000;
        last_seen = none;
        deactivated_by = none;
        deactivated_at = none;
      }
      ∷ [];
  devices = [];
  employees = [];
  drawn = 0;
}

abbrev phones : Devices.Db
phones = record {
  registrations =
      record {
        id = 9;
        company_id = 1;
        employee_id = 8;
        device_token = "dev_1";
        fingerprint = none;
        label = none;
        platform = none;
        status = Devices.active;
        registered_at = 10;
        last_seen_at = none;
        revoked_by = none;
        revoked_at = none;
      }
      ∷ [];
  logs = [];
  employees = record { id = 8; company_id = 1; user_id = some 5; primary_store_id = some 2 } ∷ [];
  memberships = [];
  settings = record { company_id = 1; require_device_fingerprint = false } ∷ [];
  drawn = 0;
}

abbrev empty : Db
empty = record {
  logs = [];
  breaks = [];
  anomalies = [];
  corrections = [];
  shifts = [];
  registrations = phones;
  terminals = doors;
  audit = [];
  drawn = 0;
}

empty-IsOnce : IsOnce empty
empty-IsOnce = record { logs = λ c e. tt; breaks = λ c i. tt }

abbrev arrives : ClockInDto
arrives = record {
  employee_id = 8;
  store_id = 2;
  shift_id = none;
  method = none;
  device_id = none;
  terminal_id = none;
  at_utc = some 120000;
  notes = none;
}

abbrev event : SyncEvent
event = record {
  kind = clock_in;
  employee_id = 8;
  store_id = some 2;
  shift_id = none;
  method = none;
  terminal_id = none;
  device_id = none;
  at_utc = 300000;
  paid = none;
}

abbrev batch : List SyncEvent
batch = event ∷ record event { kind = clock_out; at_utc = 240000 } ∷ []

abbrev arrived : Db
arrived = (Service.clock_in is_fraction (at_time 120000) 1 arrives empty).1

-- The clock-in that comes after the clock-out in time opens a log again.
abbrev synced : Db
synced = (sync is_fraction (at_time 400000) 1 batch arrived).1

both_applied :
    (sync is_fraction (at_time 400000) 1 batch arrived).0
    ≡ record { applied = 2; failed = 0; errors = [] }
unfolding sync Service.clock_in
both_applied = refl

-- A second clock-in in a row is listed as failed.
abbrev longer : List SyncEvent
longer = record event { at_utc = 310000 } ∷ batch

one_failed : (sync is_fraction (at_time 400000) 1 longer arrived).0 ≡ record {
  applied = 2;
  failed = 1;
  errors = record { index = 2; error = conflict "Employee is already clocked in." } ∷ [];
}
unfolding sync Service.clock_in
one_failed = refl

sync-IsSynced_example :
    IsSynced is_fraction
      (at_time 400000)
      1
      longer
      arrived
      (sync is_fraction (at_time 400000) 1 longer arrived).0
      (sync is_fraction (at_time 400000) 1 longer arrived).1
sync-IsSynced_example = sync-IsSynced is_fraction (at_time 400000) 1 longer arrived

Reaches-IsOnce_example : IsOnce synced
Reaches-IsOnce_example =
    Reaches-IsOnce plain 60 same "t" iso no_date is_fraction empty synced
      (then arrived (at_time 400000) 1 (syncs batch)
        (then empty (at_time 120000) 1 (clocks_in arrives) here))
      empty-IsOnce

abbrev leaves : PunchDto
leaves = record { log_id = none; employee_id = some 8; at_utc = some 240000; paid = none }

abbrev begun : AttendanceLog
begun = record {
  id = 70;
  company_id = 1;
  store_id = 2;
  employee_id = 8;
  shift_id = none;
  clock_in_utc = 120000;
  clock_out_utc = none;
  method = manual;
  device_id = none;
  terminal_id = none;
  source = online;
  status = LogStatus.opened;
  notes = none;
}

-- The employee is on a break from 180000 on.
abbrev resting : Db
resting = record empty {
  logs = begun ∷ [];
  breaks =
      record {
        id = 71;
        company_id = 1;
        log_id = 70;
        start_utc = 180000;
        end_utc = none;
        paid = false;
      }
      ∷ [];
  drawn = 2;
}

resting-IsOnce : IsOnce resting
resting-IsOnce = record { logs = λ c e. (λ on. refl, tt); breaks = λ c i. (λ on. refl, tt) }

abbrev ended : AttendanceLog
ended = record begun { clock_out_utc = some 240000; status = closed }

is_ended : (Service.clock_out is_fraction (at_time 500000) 1 leaves resting).0 ≡ ok ended
unfolding Service.clock_out
is_ended = refl

clock_out-IsShut_example :
    (ended.clock_out_utc ≡ some 240000)
    × (ended.status ≡ closed)
    × IsShut 1 70 240000 (Service.clock_out is_fraction (at_time 500000) 1 leaves resting).1
clock_out-IsShut_example =
    clock_out-IsShut is_fraction (at_time 500000) 1 leaves ended resting resting-IsOnce
      (λ i. (λ on. refl, tt)) is_ended

abbrev scans : KioskPunchDto
scans = record {
  token = 62 ∷ 58 ∷ 107 ∷ [];
  action = clock_in;
  device_token = some "dev_1";
  fingerprint = none;
}

abbrev punched : Punched
punched = log (record begun { clock_in_utc = 2000; method = qr; terminal_id = some 3 })

is_punched : (kiosk_punch plain 60 same "t" is_fraction (at_time 2000) 1 scans empty).0 ≡ ok punched
unfolding kiosk_punch validate_qr_token own_employee assert_can_clock_in act
is_punched = refl

kiosk_punch-IsAuthorised_example :
    IsAuthorised plain 60 same "t" is_fraction (at_time 2000) 1 scans punched empty
kiosk_punch-IsAuthorised_example =
    kiosk_punch-IsAuthorised plain 60 same "t" is_fraction (at_time 2000) 1 scans punched empty
      is_punched
