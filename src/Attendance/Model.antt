-- ===== src/Attendance/Model.antt =====
-- database/schema/attendance.ts. Times are milliseconds, counted as in the shifts. The position of a
-- punch is left out, and so are the minutes of a break, which are its length and which nothing reads.
use vellora_backend.Prelude.{
  ℕ, Bool, true, false, not, ◌&&◌, Option, none, some, String, List, [], ◌∷◌, ◌==◌, leb,
  if◌then◌else◌, is_some,
}
use vellora_backend.Devices.Model as Devices
use vellora_backend.Terminals.Model as Terminals
use vellora_backend.Scheduling.Model.{Shift}

pub data Method : Type 0 where
  qr manual terminal : Method

pub data LogSource : Type 0 where
  online offline_sync : LogSource

pub data LogStatus : Type 0 where
  opened closed flagged corrected : LogStatus

pub data AnomalyType : Type 0 where
  late early_leave missing_punch no_show over_hours location_mismatch : AnomalyType

pub data Severity : Type 0 where
  low medium high : Severity

pub data AnomalyStatus : Type 0 where
  opened in_review resolved dismissed : AnomalyStatus

pub data CorrectionStatus : Type 0 where
  requested approved rejected : CorrectionStatus

-- The values of `field` that a client may send.
pub data Field : Type 0 where
  clock_in_utc clock_out_utc status : Field

-- A note that the detection wrote, with the length that it names, or one that a user wrote.
pub data Note : Type 0 where
  detected : AnomalyType → ℕ → Note
  written : String → Note

pub record AttendanceLog : Type 0 where
  pub id : ℕ
  pub company_id : ℕ
  pub store_id : ℕ
  pub employee_id : ℕ
  pub shift_id : Option ℕ
  pub clock_in_utc : ℕ
  pub clock_out_utc : Option ℕ
  pub method : Method
  pub device_id : Option ℕ
  pub terminal_id : Option ℕ
  pub source : LogSource
  pub status : LogStatus
  pub notes : Option String

pub record AttendanceBreak : Type 0 where
  pub id : ℕ
  pub company_id : ℕ
  pub log_id : ℕ
  pub start_utc : ℕ
  pub end_utc : Option ℕ
  pub paid : Bool

pub record Anomaly : Type 0 where
  pub id : ℕ
  pub company_id : ℕ
  pub store_id : ℕ
  pub employee_id : ℕ
  pub log_id : Option ℕ
  pub type : AnomalyType
  pub severity : Severity
  pub status : AnomalyStatus
  pub detected_at : ℕ
  pub resolved_by : Option ℕ
  pub note : Note

pub record Correction : Type 0 where
  pub id : ℕ
  pub company_id : ℕ
  pub log_id : ℕ
  pub field : Field
  pub old_value : Option String
  pub new_value : Option String
  pub reason : Option String
  pub requested_by : Option ℕ
  pub approved_by : Option ℕ
  pub status : CorrectionStatus
  pub created_at : ℕ
  pub resolved_at : Option ℕ

pub record AuditEntry : Type 0 where
  pub company_id : ℕ
  pub actor_user_id : Option ℕ
  pub action : String
  pub target_id : ℕ

pub record Db : Type 0 where
  pub logs : List AttendanceLog
  pub breaks : List AttendanceBreak
  pub anomalies : List Anomaly
  pub corrections : List Correction
  pub shifts : List Shift
  pub registrations : Devices.Db
  pub terminals : Terminals.Db
  pub audit : List AuditEntry
  pub drawn : ℕ

abbrev pub same_log_status : LogStatus → LogStatus → Bool
same_log_status LogStatus.opened LogStatus.opened = true
same_log_status closed closed = true
same_log_status flagged flagged = true
same_log_status corrected corrected = true
same_log_status _ _ = false

abbrev pub same_anomaly_status : AnomalyStatus → AnomalyStatus → Bool
same_anomaly_status AnomalyStatus.opened AnomalyStatus.opened = true
same_anomaly_status in_review in_review = true
same_anomaly_status resolved resolved = true
same_anomaly_status dismissed dismissed = true
same_anomaly_status _ _ = false

abbrev pub same_correction_status : CorrectionStatus → CorrectionStatus → Bool
same_correction_status requested requested = true
same_correction_status approved approved = true
same_correction_status rejected rejected = true
same_correction_status _ _ = false

abbrev pub by_id : ℕ → ℕ → AttendanceLog → Bool
by_id company id l = l.company_id == company && l.id == id

-- `and(eq(employeeId, …), isNull(clockOutUtc))`
abbrev pub open_of : ℕ → ℕ → AttendanceLog → Bool
open_of company employee_id l =
    l.company_id == company && l.employee_id == employee_id && not (is_some l.clock_out_utc)

abbrev pub break_by_id : ℕ → ℕ → AttendanceBreak → Bool
break_by_id company id b = b.company_id == company && b.id == id

-- `and(eq(logId, …), isNull(endUtc))`
abbrev pub open_break_of : ℕ → ℕ → AttendanceBreak → Bool
open_break_of company log_id b =
    b.company_id == company && b.log_id == log_id && not (is_some b.end_utc)

abbrev pub anomaly_by_id : ℕ → ℕ → Anomaly → Bool
anomaly_by_id company id a = a.company_id == company && a.id == id

abbrev pub correction_by_id : ℕ → ℕ → Correction → Bool
correction_by_id company id c = c.company_id == company && c.id == id

-- `findFirst` in descending order of a time.
abbrev pub latest : {A : Type 0} → (A → ℕ) → List A → Option A
latest at [] = none
latest at (x ∷ t) = elim (latest at t) [
  | none ↦ some x
  | some y ↦ if leb (at y) (at x) then some x else some y
]
