-- ===== src/Scheduling/Rules.antt =====
-- The limits, the lengths and the bodies of requests of scheduling/scheduling.service.ts.
use vellora_backend.Prelude.{
  ℕ, ◌+◌, ◌-◌, ◌*◌, ◌/◌, ◌%◌, Bool, true, false, Option, none, some, String, List, [], ◌∷◌,
  if◌then◌else◌, is_some,
}
use vellora_backend.Scheduling.Model.{
  Shift, ShiftStatus, ShiftSource, EmployeeStatus, on_leave, Store,
}

abbrev pub day_ms : ℕ
day_ms = 86400000

abbrev pub minute_ms : ℕ
minute_ms = 60000

abbrev pub max_week_minutes : ℕ
max_week_minutes = 3600

-- `getUTCDay`: Sunday is 0.
abbrev pub utc_day : ℕ → ℕ
utc_day at = (at / day_ms + 1) % 7

abbrev pub weekday_mon0 : ℕ → ℕ
weekday_mon0 at = (utc_day at + 6) % 7

abbrev pub start_of_week_utc : ℕ → ℕ
start_of_week_utc at = (at - weekday_mon0 at * day_ms) / day_ms * day_ms

-- A negative length counts as 0.
abbrev pub duration : Shift → ℕ
duration s = s.ends_at_utc - s.starts_at_utc - s.break_minutes * minute_ms

abbrev pub sum_durations : List Shift → ℕ
sum_durations [] = 0
sum_durations (s ∷ t) = duration s + sum_durations t

abbrev pub is_on_leave : EmployeeStatus → Bool
is_on_leave on_leave = true
is_on_leave _ = false

abbrev pub with_employee : List Shift → ℕ
with_employee [] = 0
with_employee (s ∷ t) = (if is_some s.employee_id then 1 else 0) + with_employee t

-- `store && store.capacity > 0`, with the capacity.
abbrev pub cap_of : Option Store → ℕ
cap_of none = 0
cap_of (some s) = s.capacity

abbrev pub is_empty : List Shift → Bool
is_empty [] = true
is_empty (s ∷ t) = false

pub record CreateShiftDto : Type 0 where
  pub store_id : ℕ
  pub employee_id : Option ℕ
  pub activity_id : Option ℕ
  pub role : Option String
  pub starts_at_utc : ℕ
  pub ends_at_utc : ℕ
  pub break_minutes : Option ℕ
  pub notes : Option String
  pub status : Option ShiftStatus
  pub source : Option ShiftSource

-- In a nullable field, `none` is `undefined` and `some none` is `null`.
pub record UpdateShiftDto : Type 0 where
  pub employee_id : Option (Option ℕ)
  pub activity_id : Option (Option ℕ)
  pub role : Option (Option String)
  pub starts_at_utc : Option ℕ
  pub ends_at_utc : Option ℕ
  pub break_minutes : Option ℕ
  pub notes : Option (Option String)
  pub status : Option ShiftStatus

abbrev pub hour_ms : ℕ
hour_ms = 3600000

abbrev pub utc_at : ℕ → ℕ
utc_at date = date * day_ms
