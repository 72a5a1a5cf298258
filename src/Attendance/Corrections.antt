-- ===== src/Attendance/Corrections.antt =====
-- The anomalies and corrections of attendance/attendance.service.ts. The text of a time, and the time that
-- a text names, are parameters: `none` is an invalid date, which the update cannot write.
use vellora_backend.Prelude.{
  not_empty, ℕ, Bool, not, Option, none, some, String, List, [], ◌∷◌, str_eq, if◌then◌else◌,
}
use mathlib.Core.Option
use mathlib.Core.Option.{get_or}
use vellora_backend.Nest.{
  Action, Done, Result, ok, err, conflict, not_found, database_error, internal_error, pure, throw,
  or_throw, throw_if, ◌>>=◌, ◌>>◌,
}
use vellora_backend.Database.{unless_undefined}
use vellora_backend.Access.Principal.{Request, scoped_store_ids, current_user_id}
use vellora_backend.Attendance.Model.{
  AttendanceLog, Anomaly, Correction, LogStatus, closed, flagged, corrected, AnomalyStatus,
  resolved, CorrectionStatus, requested, approved, rejected, Field, clock_in_utc, clock_out_utc,
  status, Note, written, Db, same_correction_status,
}
use vellora_backend.Attendance.Queries.{
  update_log, select_anomalies, find_anomaly, update_anomaly, create_correction, select_corrections,
  find_correction, update_correction,
}
use vellora_backend.Attendance.Service.{assert_store_in_scope, get_log, audit}

pub record ResolveAnomalyDto : Type 0 where
  pub status : Option AnomalyStatus
  pub note : Option String

pub record CreateCorrectionDto : Type 0 where
  pub field : Field
  pub new_value : String
  pub reason : Option String

abbrev pub status_text : LogStatus → String
status_text LogStatus.opened = "open"
status_text closed = "closed"
status_text flagged = "flagged"
status_text corrected = "corrected"

-- What the enum column takes.
abbrev pub status_of : String → Option LogStatus
status_of s =
    if str_eq s "open"
    then some LogStatus.opened
    else if str_eq s "closed"
    then some closed
    else if str_eq s "flagged"
    then some flagged
    else if str_eq s "corrected"
    then some corrected
    else none

module _ (iso : ℕ → String) (parse_date : String → Option ℕ) (refuses : ℕ → ℕ → Bool) (r : Request)
    (company : ℕ) where
  unfoldable pub list_anomalies : Option AnomalyStatus → Action Db (List Anomaly)
  unfolding select_anomalies
  list_anomalies s = elim (scoped_store_ids r.user) [
    | some [] ↦ pure []
    | some (i ∷ ids) ↦ select_anomalies r company (some (i ∷ ids)) s
    | none ↦ select_anomalies r company none s
  ]

  abbrev pub note_of : Option String → Note → Note
  note_of none kept = kept
  note_of (some text) kept = written text

  unfoldable pub resolve_anomaly : ℕ → ResolveAnomalyDto → Action Db (Option Anomaly)
  unfolding find_anomaly assert_store_in_scope update_anomaly
  resolve_anomaly id dto = do
    anomaly ← or_throw (← find_anomaly r company id) (not_found "Anomaly not found.")
    assert_store_in_scope refuses r company anomaly.store_id
    update_anomaly r company id λ a. record a {
      status = get_or dto.status resolved;
      note = note_of dto.note anomaly.note;
      resolved_by = unless_undefined (current_user_id r.user) a.resolved_by;
    }

  abbrev pub correction_field_value : AttendanceLog → Field → Option String
  correction_field_value log clock_in_utc = some (iso log.clock_in_utc)
  correction_field_value log clock_out_utc = Option.map iso log.clock_out_utc
  correction_field_value log status = some (status_text log.status)

  unfoldable pub request_correction : ℕ → CreateCorrectionDto → Action Db Correction
  unfolding get_log create_correction
  request_correction log_id dto = do
    log ← get_log refuses r company log_id
    create_correction r company λ id. record {
      id = id;
      company_id = company;
      log_id = log_id;
      field = dto.field;
      old_value = correction_field_value log dto.field;
      new_value = some dto.new_value;
      reason = dto.reason;
      requested_by = current_user_id r.user;
      approved_by = none;
      status = requested;
      created_at = r.now;
      resolved_at = none;
    }

  unfoldable pub list_corrections : Option CorrectionStatus → Action Db (List Correction)
  unfolding select_corrections
  list_corrections s = select_corrections r company s

  -- The write that a correction stands for, or what it throws, when an empty value counts as none.
  abbrev pub patch_with : Field → Option String → Result (AttendanceLog → AttendanceLog)
  patch_with field none = ok (λ l. record l { status = corrected })
  patch_with clock_in_utc (some text) = elim (parse_date text) [
    | none ↦ err internal_error
    | some at ↦ ok (λ l. record l { clock_in_utc = at; status = corrected })
  ]
  patch_with clock_out_utc (some text) = elim (parse_date text) [
    | none ↦ err internal_error
    | some at ↦ ok (λ l. record l { clock_out_utc = some at; status = corrected })
  ]
  patch_with status (some text) = elim (status_of text) [
    | none ↦ err database_error
    | some s ↦ ok (λ l. record l { status = s })
  ]

  -- `newValue` is tested for its truth.
  abbrev pub patch_of : Field → Option String → Result (AttendanceLog → AttendanceLog)
  patch_of field value = patch_with field (not_empty value)

  unfoldable pub apply_correction : AttendanceLog → Field → Option String → Action Db Done
  unfolding update_log
  apply_correction log field new_value = elim (patch_of field new_value) [
    | err e ↦ throw e
    | ok f ↦ (do update_log r company log.id f; pure tt)
  ]

  abbrev pub resolved_as : CorrectionStatus → Correction → Correction
  resolved_as s c = record c {
    status = s;
    approved_by = unless_undefined (current_user_id r.user) c.approved_by;
    resolved_at = some r.now;
  }

  unfoldable pub approve_correction : ℕ → Action Db (Option Correction)
  unfolding find_correction get_log apply_correction update_correction audit
  approve_correction id = do
    correction ← or_throw (← find_correction r company id) (not_found "Correction not found.")
    throw_if (not (same_correction_status correction.status requested))
        (conflict "Correction has already been resolved.")
    log ← get_log refuses r company correction.log_id
    apply_correction log correction.field correction.new_value
    row ← update_correction r company id (resolved_as approved)
    audit refuses r company "attendance.correction.approved" log.id
    pure row

  unfoldable pub reject_correction : ℕ → Action Db (Option Correction)
  unfolding find_correction get_log update_correction
  reject_correction id = do
    correction ← or_throw (← find_correction r company id) (not_found "Correction not found.")
    throw_if (not (same_correction_status correction.status requested))
        (conflict "Correction has already been resolved.")
    get_log refuses r company correction.log_id
    update_correction r company id (resolved_as rejected)
