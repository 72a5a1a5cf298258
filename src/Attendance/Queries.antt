-- ===== src/Attendance/Queries.antt =====
-- The queries and writes of attendance/attendance.repository.ts. A deletion follows the foreign keys to the
-- log: its breaks and corrections go with it, and its anomalies lose it. The joined columns that only fill
-- an answer are left out.
use vellora_backend.Prelude.{
  ℕ, suc, Bool, ◌&&◌, Option, none, List, ◌∷◌, ◌==◌, leb, ltb, is_value, includes, unless_given,
  sort_by, take,
}
use vellora_backend.Nest.{Action, Done, ok, gets, modify}
use vellora_backend.Database.{find, select, update, delete}
use vellora_backend.Access.Principal.{Request}
use vellora_backend.Devices.Model.{Employee}
use vellora_backend.Scheduling.Model.{Shift}
use vellora_backend.Scheduling.Cells.{is_staffed}
use vellora_backend.Attendance.Model.{
  AttendanceLog, AttendanceBreak, Anomaly, Correction, LogStatus, AnomalyStatus, CorrectionStatus,
  Db, by_id, open_of, break_by_id, open_break_of, anomaly_by_id, correction_by_id, latest,
  same_log_status, same_anomaly_status, same_correction_status,
}

pub record LogFilters : Type 0 where
  pub store_id : Option ℕ
  pub employee_id : Option ℕ
  pub since : Option ℕ
  pub until : Option ℕ
  pub status : Option LogStatus

abbrev pub passes : LogFilters → Option (List ℕ) → AttendanceLog → Bool
passes f scope l =
    unless_given (λ ids. includes ids l.store_id) scope
    && unless_given (λ i. l.store_id == i) f.store_id
    && unless_given (λ e. l.employee_id == e) f.employee_id
    && unless_given (λ s. same_log_status l.status s) f.status
    && unless_given (λ t. leb t l.clock_in_utc) f.since
    && unless_given (λ t. ltb l.clock_in_utc t) f.until

abbrev pub covers : ℕ → ℕ → ℕ → Shift → Bool
covers company employee_id at s =
    s.company_id == company
    && is_value employee_id s.employee_id
    && leb s.starts_at_utc at
    && ltb at s.ends_at_utc
    && is_staffed s.status

-- `limit: 500`
abbrev pub page : ℕ
page = 500

module _ (r : Request) (company : ℕ) where
  unfoldable pub list_logs : LogFilters → Option (List ℕ) → Action Db (List AttendanceLog)
  list_logs filters scope = gets λ d. take page (
      sort_by (λ a b. leb b.clock_in_utc a.clock_in_utc)
        (select (λ l. l.company_id == company && passes filters scope l) d.logs))

  unfoldable pub find_open_log : ℕ → Action Db (Option AttendanceLog)
  find_open_log employee_id =
      gets λ d. latest (λ l. l.clock_in_utc) (select (open_of company employee_id) d.logs)

  unfoldable pub find_log_by_id : ℕ → Action Db (Option AttendanceLog)
  find_log_by_id id = gets λ d. find (by_id company id) d.logs

  unfoldable pub create_log : (ℕ → AttendanceLog) → Action Db AttendanceLog
  create_log row d =
      let l : AttendanceLog = row (r.uuid d.drawn) in
      (ok l, record d { logs = l ∷ d.logs; drawn = suc d.drawn })

  unfoldable pub delete_log_row : ℕ → Action Db Done
  delete_log_row id = modify λ d. record d {
    logs = delete (by_id company id) d.logs;
    breaks = delete (λ b. b.company_id == company && b.log_id == id) d.breaks;
    corrections = delete (λ c. c.company_id == company && c.log_id == id) d.corrections;
    anomalies =
        update (λ a. a.company_id == company && is_value id a.log_id)
          (λ a. record a { log_id = none }) d.anomalies;
  }

  unfoldable pub update_log : ℕ → (AttendanceLog → AttendanceLog) → Action Db (Option AttendanceLog)
  update_log id f d =
      let t = update (by_id company id) f d.logs in
      (ok (find (by_id company id) t), record d { logs = t })

  unfoldable pub find_scheduled_shift : ℕ → ℕ → Action Db (Option Shift)
  find_scheduled_shift employee_id at = gets λ d. find (covers company employee_id at) d.shifts

  unfoldable pub shift_by_id : ℕ → Action Db (Option Shift)
  shift_by_id id = gets λ d. find (λ s. s.company_id == company && s.id == id) d.shifts

  unfoldable pub find_open_break : ℕ → Action Db (Option AttendanceBreak)
  find_open_break log_id =
      gets λ d. latest (λ b. b.start_utc) (select (open_break_of company log_id) d.breaks)

  unfoldable pub create_break : (ℕ → AttendanceBreak) → Action Db AttendanceBreak
  create_break row d =
      let b : AttendanceBreak = row (r.uuid d.drawn) in
      (ok b, record d { breaks = b ∷ d.breaks; drawn = suc d.drawn })

  unfoldable pub update_break :
      ℕ → (AttendanceBreak → AttendanceBreak) → Action Db (Option AttendanceBreak)
  update_break id f d =
      let t = update (break_by_id company id) f d.breaks in
      (ok (find (break_by_id company id) t), record d { breaks = t })

  unfoldable pub create_anomaly : (ℕ → Anomaly) → Action Db Anomaly
  create_anomaly row d =
      let a : Anomaly = row (r.uuid d.drawn) in
      (ok a, record d { anomalies = a ∷ d.anomalies; drawn = suc d.drawn })

  unfoldable pub select_anomalies :
      Option (List ℕ) → Option AnomalyStatus → Action Db (List Anomaly)
  select_anomalies scope status = gets λ d. take page (
      sort_by (λ a b. leb b.detected_at a.detected_at)
        (select
          (λ a.
            a.company_id == company
            && unless_given (λ ids. includes ids a.store_id) scope
            && unless_given (λ s. same_anomaly_status a.status s) status)
          d.anomalies))

  unfoldable pub find_anomaly : ℕ → Action Db (Option Anomaly)
  find_anomaly id = gets λ d. find (anomaly_by_id company id) d.anomalies

  unfoldable pub update_anomaly : ℕ → (Anomaly → Anomaly) → Action Db (Option Anomaly)
  update_anomaly id f d =
      let t = update (anomaly_by_id company id) f d.anomalies in
      (ok (find (anomaly_by_id company id) t), record d { anomalies = t })

  unfoldable pub create_correction : (ℕ → Correction) → Action Db Correction
  create_correction row d =
      let c : Correction = row (r.uuid d.drawn) in
      (ok c, record d { corrections = c ∷ d.corrections; drawn = suc d.drawn })

  unfoldable pub select_corrections : Option CorrectionStatus → Action Db (List Correction)
  select_corrections status = gets λ d. take page (
      sort_by (λ a b. leb a.created_at b.created_at)
        (select
          (λ c.
            c.company_id == company && unless_given (λ s. same_correction_status c.status s) status)
          d.corrections))

  unfoldable pub find_correction : ℕ → Action Db (Option Correction)
  find_correction id = gets λ d. find (correction_by_id company id) d.corrections

  unfoldable pub update_correction : ℕ → (Correction → Correction) → Action Db (Option Correction)
  update_correction id f d =
      let t = update (correction_by_id company id) f d.corrections in
      (ok (find (correction_by_id company id) t), record d { corrections = t })

  unfoldable pub employee_by_user_id : ℕ → Action Db (Option Employee)
  employee_by_user_id user_id = gets λ d.
      find (λ e. e.company_id == company && is_value user_id e.user_id) d.registrations.employees
