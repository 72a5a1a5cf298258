-- ===== src/Attendance/Rules.antt =====
-- The limits and the bodies of requests of attendance/attendance.service.ts.
use vellora_backend.Prelude.{ℕ, ◌+◌, ◌*◌, Bool, true, false, Option, String, ltb, if◌then◌else◌}
use vellora_backend.Scheduling.Model.{Shift}
use vellora_backend.Attendance.Model.{Method, LogStatus, closed, Severity, low, medium, high}

abbrev pub minute_ms : ℕ
minute_ms = 60000

abbrev pub grace_minutes : ℕ
grace_minutes = 5

abbrev pub over_hours_slack_min : ℕ
over_hours_slack_min = 60

abbrev pub unscheduled_cap_min : ℕ
unscheduled_cap_min = 720

pub record ClockInDto : Type 0 where
  pub employee_id : ℕ
  pub store_id : ℕ
  pub shift_id : Option ℕ
  pub method : Option Method
  pub device_id : Option ℕ
  pub terminal_id : Option ℕ
  pub at_utc : Option ℕ
  pub notes : Option String

pub record PunchDto : Type 0 where
  pub log_id : Option ℕ
  pub employee_id : Option ℕ
  pub at_utc : Option ℕ
  pub paid : Option Bool

abbrev pub severity_of : ℕ → Severity
severity_of delta =
    if ltb (60 * minute_ms) delta then high else if ltb (20 * minute_ms) delta then medium else low

-- `log.status === 'open' || log.status === 'closed'`
abbrev pub is_unmarked : LogStatus → Bool
is_unmarked LogStatus.opened = true
is_unmarked closed = true
is_unmarked _ = false

-- The scheduled length may be negative, so that the comparison is by sums.
abbrev pub is_over_hours : Shift → ℕ → Bool
is_over_hours s worked =
    ltb (s.ends_at_utc + over_hours_slack_min * minute_ms)
      (worked + s.starts_at_utc + s.break_minutes * minute_ms)
