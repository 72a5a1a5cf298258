-- ===== src/Attendance/OnePunch.antt =====
-- No employee is clocked in twice at one time, and no log has two running breaks: attendance/attendance.service.ts
-- keeps both without an index that would.
use vellora_backend.Prelude.{
  ℕ, ◌+◌, ◌≡◌, refl, sym, Bool, true, ◌&&◌, Option, none, some, List, [], ◌∷◌, ◌==◌, arith,
  Bool-cases, Option-cases, inl, inr, ltb, ◌*◌, ◌-◌,
}
use mathlib.Core.Path.{subst}
use vellora_backend.Database.{find, select}
use vellora_backend.Database.Totals.{IsUnique}
use vellora_backend.Database.Pairs.{IsUnique-delete, IsUnique-update_mono, find-none-select}
use vellora_backend.Access.Principal.{Request}
use vellora_backend.Scheduling.Model.{Shift}
use vellora_backend.Attendance.Model.{
  AttendanceLog, AttendanceBreak, AnomalyType, Db, by_id, open_of, break_by_id, open_break_of,
  latest, flagged, late,
}
use vellora_backend.Attendance.Queries.{
  update_log, update_break, delete_log_row, create_log, create_break, create_anomaly,
}
use vellora_backend.Attendance.Service.{raise_anomaly, detect_late}
use vellora_backend.Attendance.Rules.{is_unmarked, grace_minutes, minute_ms}

pub record IsOnce (d : Db) : Type 0 where
  pub logs : (c e : ℕ) → IsUnique (open_of c e) d.logs
  pub breaks : (c i : ℕ) → IsUnique (open_break_of c i) d.breaks

-- A write that opens no log again.
abbrev pub KeepsClosed : (AttendanceLog → AttendanceLog) → Type 0
KeepsClosed f = (l : AttendanceLog) (c e : ℕ) → open_of c e (f l) ≡ true → open_of c e l ≡ true

pub latest-none : {A : Type 0} (at : A → ℕ) (t : List A) → latest at t ≡ none → t ≡ []
latest-none at [] e = refl
latest-none at (x ∷ t) e = elim (Option-cases (latest at t)) [
  | inl nothing ↦ absurd (ground (arith, nothing, e))
  | inr (y, found) ↦ absurd (ground (arith, found, e))
]

-- The database may be given by an equation.
pub moved : {d d' : Db} → d' ≡ d → IsOnce d → IsOnce d'
moved same once = subst IsOnce (sym same) once

-- Writes elsewhere.
pub elsewhere : (d d' : Db) → d'.logs ≡ d.logs → d'.breaks ≡ d.breaks → IsOnce d → IsOnce d'
elsewhere d d' same_logs same_breaks once = record {
  logs = λ c e. subst (IsUnique (open_of c e)) (sym same_logs) (once.logs c e);
  breaks = λ c i. subst (IsUnique (open_break_of c i)) (sym same_breaks) (once.breaks c i);
}

module _ (r : Request) (company : ℕ) where
  pub update_log-IsOnce :
      (id : ℕ) (f : AttendanceLog → AttendanceLog) (d : Db)
      → KeepsClosed f
      → IsOnce d
      → IsOnce (update_log r company id f d).1
  unfolding update_log
  update_log-IsOnce id f d closed once = record {
    logs = λ c e.
        IsUnique-update_mono (by_id company id) (open_of c e) f d.logs (λ l at on. closed l c e on)
          (once.logs c e);
    breaks = once.breaks;
  }

  pub update_break-IsOnce :
      (id at : ℕ) (d : Db)
      → IsOnce d
      → IsOnce (update_break r company id (λ x. record x { end_utc = some at }) d).1
  unfolding update_break
  update_break-IsOnce id at d once = record {
    logs = once.logs;
    breaks = λ c i.
        IsUnique-update_mono (break_by_id company id) (open_break_of c i)
          (λ x. record x { end_utc = some at }) d.breaks (λ b hit on. ground (arith, on))
          (once.breaks c i);
  }

  pub delete_log_row-IsOnce :
      (id : ℕ) (d : Db) → IsOnce d → IsOnce (delete_log_row r company id d).1
  unfolding delete_log_row
  delete_log_row-IsOnce id d once = record {
    logs = λ c e. IsUnique-delete (by_id company id) (open_of c e) d.logs (once.logs c e);
    breaks = λ c i.
        IsUnique-delete (λ b. b.company_id == company && b.log_id == id) (open_break_of c i)
          d.breaks (once.breaks c i);
  }

  pub create_log-IsOnce :
      (row : ℕ → AttendanceLog) (d : Db)
      → find (open_of (row (r.uuid d.drawn)).company_id (row (r.uuid d.drawn)).employee_id) d.logs
        ≡ none
      → IsOnce d
      → IsOnce (create_log r company row d).1
  unfolding create_log
  create_log-IsOnce row d free once = record {
    logs = λ c e. (alone c e, once.logs c e);
    breaks = once.breaks;
  }
    where
      alone :
          (c e : ℕ) → open_of c e (row (r.uuid d.drawn)) ≡ true → find (open_of c e) d.logs ≡ none
      alone c e on =
          let l : AttendanceLog = row (r.uuid d.drawn) in
          let own : l.company_id ≡ c = ground (arith, on) in
          let his : l.employee_id ≡ e = ground (arith, on) in rw (← own, ← his) free

  pub create_break-IsOnce :
      (row : ℕ → AttendanceBreak) (d : Db)
      → find
          (open_break_of (row (r.uuid d.drawn)).company_id (row (r.uuid d.drawn)).log_id)
          d.breaks
        ≡ none
      → IsOnce d
      → IsOnce (create_break r company row d).1
  unfolding create_break
  create_break-IsOnce row d free once = record {
    logs = once.logs;
    breaks = λ c i. (alone c i, once.breaks c i);
  }
    where
      alone :
          (c i : ℕ)
          → open_break_of c i (row (r.uuid d.drawn)) ≡ true
          → find (open_break_of c i) d.breaks ≡ none
      alone c i on =
          let b : AttendanceBreak = row (r.uuid d.drawn) in
          let own : b.company_id ≡ c = ground (arith, on) in
          let its : b.log_id ≡ i = ground (arith, on) in rw (← own, ← its) free

  -- No open log was found, so none is there.
  pub find_open_log-none :
      (e : ℕ) (d : Db)
      → latest (λ l. l.clock_in_utc) (select (open_of company e) d.logs) ≡ none
      → find (open_of company e) d.logs ≡ none
  find_open_log-none e d absent = find-none-select (open_of company e) d.logs (
      latest-none (λ (l : AttendanceLog). l.clock_in_utc) (select (open_of company e) d.logs)
        absent)

module _ (refuses : ℕ → ℕ → Bool) (r : Request) (company : ℕ) where
  pub raise_anomaly-IsOnce :
      (log : AttendanceLog) (type : AnomalyType) (delta : ℕ) (d : Db)
      → IsOnce d
      → IsOnce (raise_anomaly refuses r company log type delta d).1
  unfolding raise_anomaly create_anomaly update_log
  raise_anomaly-IsOnce log type delta d once = elim (Bool-cases (is_unmarked log.status)) [
    | inr marked ↦ elsewhere d _ (ground (arith, marked)) (ground (arith, marked)) once
    | inl unmarked ↦
        elsewhere (update_log r company log.id (λ l. record l { status = flagged }) d).1 _
          (ground (arith, unmarked)) (ground (arith, unmarked))
          (update_log-IsOnce r company log.id (λ l. record l { status = flagged }) d
            (λ l c e on. on) once)
  ]

  pub detect_late-IsOnce :
      (log : AttendanceLog) (o : Option Shift) (at : ℕ) (d : Db)
      → IsOnce d
      → IsOnce (detect_late refuses r company log o at d).1
  unfolding detect_late
  detect_late-IsOnce log none at d once = once
  detect_late-IsOnce log (some s) at d once =
      elim (Bool-cases (ltb (s.starts_at_utc + grace_minutes * minute_ms) at)) [
        | inl tardy ↦
            moved (ground (arith, tardy))
              (raise_anomaly-IsOnce log late (at - s.starts_at_utc) d once)
        | inr timely ↦ moved (ground (arith, timely)) once
      ]
