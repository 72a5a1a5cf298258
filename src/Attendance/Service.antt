-- ===== src/Attendance/Service.antt =====
-- The punches of attendance/attendance.service.ts. Lengths are held in milliseconds where the source
-- divides them into minutes. Whether the integer column `minutes` refuses the length of a break, as
-- PostgreSQL refuses a fraction, is a parameter.
use vellora_backend.Prelude.{
  ℕ, ◌+◌, ◌-◌, ◌*◌, Bool, false, Option, none, some, String, List, [], ◌∷◌, ltb, leb, is_some,
}
use mathlib.Core.Option.{get_or}
use vellora_backend.Nest.{
  Action, Done, conflict, forbidden, not_found, database_error, internal_error, pure, when, modify,
  or_throw, throw_if, ◌>>=◌, ◌>>◌,
}
use vellora_backend.Access.Principal.{Request, scoped_store_ids, current_user_id, is_out_of_scope}
use vellora_backend.Scheduling.Model.{Shift}
use vellora_backend.Attendance.Model.{
  AttendanceLog, AttendanceBreak, manual, online, LogStatus, closed, flagged, AnomalyType, late,
  early_leave, over_hours, AnomalyStatus, detected, Db,
}
use vellora_backend.Attendance.Queries.{
  LogFilters, list_logs, find_open_log, find_log_by_id, create_log, delete_log_row, update_log,
  find_scheduled_shift, shift_by_id, find_open_break, create_break, update_break, create_anomaly,
}
use vellora_backend.Attendance.Rules.{
  ClockInDto, PunchDto, grace_minutes, is_over_hours, is_unmarked, minute_ms, severity_of,
  unscheduled_cap_min,
}

module _ (refuses : ℕ → ℕ → Bool) (r : Request) (company : ℕ) where
  unfoldable pub assert_store_in_scope : ℕ → Action Db Done
  assert_store_in_scope store_id =
      throw_if (is_out_of_scope (scoped_store_ids r.user) (some store_id))
        (forbidden "That store is outside your scope.")

  unfoldable pub list : LogFilters → Action Db (List AttendanceLog)
  unfolding list_logs
  list dto = elim (scoped_store_ids r.user) [
    | some [] ↦ pure []
    | some (i ∷ ids) ↦ list_logs r company dto (some (i ∷ ids))
    | none ↦ list_logs r company dto none
  ]

  unfoldable pub get_log : ℕ → Action Db AttendanceLog
  unfolding find_log_by_id assert_store_in_scope
  get_log id = do
    log ← or_throw (← find_log_by_id r company id) (not_found "Attendance log not found.")
    assert_store_in_scope log.store_id
    pure log

  unfoldable pub audit : String → ℕ → Action Db Done
  audit action target_id = modify λ d. record d {
    audit =
        record {
          company_id = company;
          actor_user_id = current_user_id r.user;
          action = action;
          target_id = target_id;
        }
        ∷ d.audit;
  }

  unfoldable pub delete_log : ℕ → Action Db ℕ
  unfolding get_log delete_log_row audit
  delete_log id = do
    get_log id
    delete_log_row r company id
    audit "attendance.log.deleted" id
    pure id

  unfoldable pub raise_anomaly : AttendanceLog → AnomalyType → ℕ → Action Db Done
  unfolding create_anomaly update_log
  raise_anomaly log type delta = do
    create_anomaly r company λ id. record {
      id = id;
      company_id = company;
      store_id = log.store_id;
      employee_id = log.employee_id;
      log_id = some log.id;
      type = type;
      severity = severity_of delta;
      status = AnomalyStatus.opened;
      detected_at = r.now;
      resolved_by = none;
      note = detected type delta;
    }
    when (is_unmarked log.status)
        (do update_log r company log.id (λ l. record l { status = flagged }); pure tt)

  -- `if (shift && …)`: the late punch against the start of its shift.
  unfoldable pub detect_late : AttendanceLog → Option Shift → ℕ → Action Db Done
  unfolding raise_anomaly
  detect_late log none at = pure tt
  detect_late log (some shift) at =
      when (ltb (shift.starts_at_utc + grace_minutes * minute_ms) at)
        (raise_anomaly log late (at - shift.starts_at_utc))

  unfoldable pub shift_for : Option ℕ → ℕ → ℕ → Action Db (Option Shift)
  unfolding shift_by_id find_scheduled_shift
  shift_for none employee_id at = find_scheduled_shift r company employee_id at
  shift_for (some id) employee_id at = shift_by_id r company id

  abbrev pub id_of : Option Shift → Option ℕ
  id_of none = none
  id_of (some s) = some s.id

  abbrev pub new_log : ClockInDto → Option Shift → ℕ → ℕ → AttendanceLog
  new_log dto shift at id = record {
    id = id;
    company_id = company;
    store_id = dto.store_id;
    employee_id = dto.employee_id;
    shift_id = id_of shift;
    clock_in_utc = at;
    clock_out_utc = none;
    method = get_or dto.method manual;
    device_id = dto.device_id;
    terminal_id = dto.terminal_id;
    source = online;
    status = LogStatus.opened;
    notes = dto.notes;
  }

  unfoldable pub clock_in : ClockInDto → Action Db AttendanceLog
  unfolding assert_store_in_scope find_open_log shift_for create_log detect_late
  clock_in dto = do
    assert_store_in_scope dto.store_id
    current ← find_open_log r company dto.employee_id
    throw_if (is_some current) (conflict "Employee is already clocked in.")
    let at : ℕ = get_or dto.at_utc r.now
    shift ← shift_for dto.shift_id dto.employee_id at
    log ← create_log r company (new_log dto shift at)
    detect_late log shift at
    pure log

  unfoldable pub resolve_open_log : PunchDto → Action Db AttendanceLog
  unfolding get_log find_open_log assert_store_in_scope
  resolve_open_log dto = elim dto.log_id [
    | some id ↦ get_log id
    | none ↦ (do
      employee_id ← or_throw dto.employee_id (conflict "logId or employeeId is required.")
      current ←
          or_throw (← find_open_log r company employee_id)
            (not_found "No open attendance log for this employee.")
      assert_store_in_scope current.store_id
      pure current)
  ]

  -- `updateBreak(…, { endUtc: at, minutes: minutesBetween(startUtc, at) })`
  unfoldable pub end_break : AttendanceBreak → ℕ → Action Db (Option AttendanceBreak)
  unfolding update_break
  end_break b at = do
    throw_if (refuses b.start_utc at) database_error
    update_break r company b.id (λ x. record x { end_utc = some at })

  unfoldable pub close_break : Option AttendanceBreak → ℕ → Action Db Done
  unfolding end_break
  close_break none at = pure tt
  close_break (some b) at = do end_break b at; pure tt

  unfoldable pub shift_of : Option ℕ → Action Db (Option Shift)
  unfolding shift_by_id
  shift_of none = pure none
  shift_of (some id) = shift_by_id r company id

  unfoldable pub detect_early : AttendanceLog → Shift → ℕ → Action Db Done
  unfolding raise_anomaly
  detect_early log s out =
      when (ltb (grace_minutes * minute_ms) (s.ends_at_utc - out))
        (raise_anomaly log early_leave (s.ends_at_utc - out))

  unfoldable pub detect_over : AttendanceLog → Shift → ℕ → Action Db Done
  unfolding raise_anomaly
  detect_over log s worked = when (is_over_hours s worked) (
      raise_anomaly log over_hours
        (worked + s.starts_at_utc + s.break_minutes * minute_ms - s.ends_at_utc))

  -- The rules of a closed log: against its shift, or without one.
  unfoldable pub detect_worked : AttendanceLog → Option Shift → ℕ → Action Db Done
  unfolding raise_anomaly detect_early detect_over
  detect_worked log none out = do
    let worked : ℕ = out - log.clock_in_utc
    when (ltb (unscheduled_cap_min * minute_ms) worked)
        (raise_anomaly log over_hours (worked - unscheduled_cap_min * minute_ms))
  detect_worked log (some s) out = do
    detect_early log s out
    detect_over log s (out - log.clock_in_utc)

  unfoldable pub detect_on_close : AttendanceLog → Action Db Done
  unfolding shift_of detect_worked
  detect_on_close log = elim log.clock_out_utc [
    | none ↦ pure tt
    | some out ↦ (do shift ← shift_of log.shift_id; detect_worked log shift out)
  ]

  unfoldable pub clock_out : PunchDto → Action Db AttendanceLog
  unfolding resolve_open_log find_open_break close_break update_log detect_on_close
  clock_out dto = do
    log ← resolve_open_log dto
    let at : ℕ = get_or dto.at_utc r.now
    throw_if (leb at log.clock_in_utc) (conflict "Clock-out must be after clock-in.")
    open_break ← find_open_break r company log.id
    close_break open_break at
    closed_log ←
        or_throw
          (← update_log r company log.id
            (λ l. record l { clock_out_utc = some at; status = closed }))
          internal_error
    detect_on_close closed_log
    pure closed_log

  abbrev pub new_break : PunchDto → AttendanceLog → ℕ → AttendanceBreak
  new_break dto log id = record {
    id = id;
    company_id = company;
    log_id = log.id;
    start_utc = get_or dto.at_utc r.now;
    end_utc = none;
    paid = get_or dto.paid false;
  }

  unfoldable pub break_start : PunchDto → Action Db AttendanceBreak
  unfolding resolve_open_log find_open_break create_break
  break_start dto = do
    log ← resolve_open_log dto
    existing ← find_open_break r company log.id
    throw_if (is_some existing) (conflict "A break is already in progress.")
    create_break r company (new_break dto log)

  unfoldable pub break_end : PunchDto → Action Db (Option AttendanceBreak)
  unfolding resolve_open_log find_open_break end_break
  break_end dto = do
    log ← resolve_open_log dto
    current ← or_throw (← find_open_break r company log.id) (conflict "No break is in progress.")
    end_break current (get_or dto.at_utc r.now)
