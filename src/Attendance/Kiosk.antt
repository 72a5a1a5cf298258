-- ===== src/Attendance/Kiosk.antt =====
-- `kioskPunch` of attendance/attendance.service.ts, with the terminals and the device registrations that it
-- asks.
use vellora_backend.Prelude.{ℕ, Bool, Option, none, some, String}
use vellora_backend.Nest.{Action, forbidden, pure, or_throw, ◌>>=◌, ◌>>◌}
use vellora_backend.Access.Principal.{Request, current_user_id}
use vellora_backend.Devices.Model as Devices
use vellora_backend.Devices.Model.{Employee}
use vellora_backend.Devices.Service.{assert_can_clock_in}
use vellora_backend.Terminals.Qr.{Text, Library}
use vellora_backend.Terminals.Model as Terminals
use vellora_backend.Terminals.Service.{validate_qr_token}
use vellora_backend.Attendance.Model.{AttendanceLog, AttendanceBreak, qr, Db}
use vellora_backend.Attendance.Queries.{employee_by_user_id}
use vellora_backend.Attendance.Service
use vellora_backend.Attendance.Rules.{ClockInDto, PunchDto}
use vellora_backend.Attendance.Batches.{Kind, clock_in, clock_out, break_start, break_end}

pub record KioskPunchDto : Type 0 where
  pub token : Text
  pub action : Kind
  pub device_token : Option String
  pub fingerprint : Option String

-- The row that a punch returns.
pub data Punched : Type 0 where
  log : AttendanceLog → Punched
  rest : Option AttendanceBreak → Punched

-- A call of the terminals or of the registrations, on their part of the database.
abbrev pub on_terminals : {A : Type 0} → Action Terminals.Db A → Action Db A
on_terminals m d = let (a, t) = m d.terminals in (a, record d { terminals = t })

abbrev pub on_registrations : {A : Type 0} → Action Devices.Db A → Action Db A
on_registrations m d = let (a, t) = m d.registrations in (a, record d { registrations = t })

module _ (l : Library) (qr_ttl_seconds : ℕ) (trim : String → String) (new_token : String)
    (refuses : ℕ → ℕ → Bool) (r : Request) (company : ℕ) where
  -- `userId ? await employeeByUserId(…) : null`
  unfoldable pub own_employee : Action Db (Option Employee)
  unfolding employee_by_user_id
  own_employee = elim (current_user_id r.user) [
    | none ↦ pure none
    | some user_id ↦ employee_by_user_id r company user_id
  ]

  abbrev pub own_punch : ℕ → PunchDto
  own_punch employee_id = record {
    log_id = none;
    employee_id = some employee_id;
    at_utc = some r.now;
    paid = none;
  }

  abbrev pub at_kiosk : ℕ → Terminals.Terminal → ClockInDto
  at_kiosk employee_id terminal = record {
    employee_id = employee_id;
    store_id = terminal.store_id;
    shift_id = none;
    method = some qr;
    device_id = none;
    terminal_id = some terminal.id;
    at_utc = some r.now;
    notes = none;
  }

  unfoldable pub act : Kind → ℕ → Terminals.Terminal → Action Db Punched
  unfolding Service.clock_in Service.clock_out Service.break_start Service.break_end
  act kind employee_id terminal = elim kind [
    | clock_in ↦ (do
      row ← Service.clock_in refuses r company (at_kiosk employee_id terminal)
      pure (log row))
    | clock_out ↦ (do
      row ← Service.clock_out refuses r company (own_punch employee_id)
      pure (log row))
    | break_start ↦ (do
      row ← Service.break_start refuses r company (own_punch employee_id)
      pure (rest (some row)))
    | break_end ↦ (do
      row ← Service.break_end refuses r company (own_punch employee_id)
      pure (rest row))
  ]

  unfoldable pub kiosk_punch : KioskPunchDto → Action Db Punched
  kiosk_punch dto = do
    terminal ← on_terminals (validate_qr_token l qr_ttl_seconds r company dto.token)
    employee ←
        or_throw (← own_employee)
          (forbidden "Only employees can clock in. No employee profile is linked.")
    on_registrations (
        assert_can_clock_in r company trim new_token employee.id
          (record { device_token = dto.device_token; fingerprint = dto.fingerprint }))
    act dto.action employee.id terminal
