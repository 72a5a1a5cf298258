-- ===== src/Attendance/Detection.antt =====
-- The anomaly detection of attendance/attendance.service.ts writes what `raiseAnomaly` writes and no more.
use vellora_backend.Prelude.{
  ℕ, ◌+◌, ◌-◌, ◌*◌, ◌≡◌, refl, sym, Bool, Option, none, some, ltb, ◌==◌, ◌&&◌, arith, Bool-cases,
  Option-cases, inl, inr,
}
use mathlib.Core.Path.{subst}
use vellora_backend.Nest.{outcomes}
use vellora_backend.Database.{find}
use vellora_backend.Access.Principal.{Request}
use vellora_backend.Scheduling.Model.{Shift}
use vellora_backend.Attendance.Model.{AttendanceLog, AnomalyType, early_leave, over_hours, Db}
use vellora_backend.Attendance.Service.{
  shift_of, detect_early, detect_over, detect_worked, detect_on_close, raise_anomaly,
}
use vellora_backend.Attendance.Rules.{is_over_hours, grace_minutes, minute_ms, unscheduled_cap_min}

moved : (P : Db → Type 0) {d d' : Db} → d' ≡ d → P d → P d'
moved P same p = subst P (sym same) p

-- A property that `raiseAnomaly` keeps.
module _ (refuses : ℕ → ℕ → Bool) (r : Request) (company : ℕ) (P : Db → Type 0)
    (keeps : (log : AttendanceLog) (type : AnomalyType) (delta : ℕ) (d : Db)
      → P d
      → P (raise_anomaly refuses r company log type delta d).1) where
  detect_early-Keeps :
      (log : AttendanceLog) (s : Shift) (out : ℕ) (d : Db)
      → P d
      → P (detect_early refuses r company log s out d).1
  unfolding detect_early
  detect_early-Keeps log s out d once =
      elim (Bool-cases (ltb (grace_minutes * minute_ms) (s.ends_at_utc - out))) [
        | inl left ↦
            moved P (ground (arith, left)) (keeps log early_leave (s.ends_at_utc - out) d once)
        | inr stayed ↦ moved P (ground (arith, stayed)) once
      ]

  detect_over-Keeps :
      (log : AttendanceLog) (s : Shift) (worked : ℕ) (d : Db)
      → P d
      → P (detect_over refuses r company log s worked d).1
  unfolding detect_over
  detect_over-Keeps log s worked d once = elim (Bool-cases (is_over_hours s worked)) [
    | inl long ↦ moved P (ground (arith, long)) (
        keeps log over_hours
          (worked + s.starts_at_utc + s.break_minutes * minute_ms - s.ends_at_utc) d once)
    | inr short ↦ moved P (ground (arith, short)) once
  ]

  detect_worked-Keeps :
      (log : AttendanceLog) (o : Option Shift) (out : ℕ) (d : Db)
      → P d
      → P (detect_worked refuses r company log o out d).1
  unfolding detect_worked
  detect_worked-Keeps log none out d once =
      elim (Bool-cases (ltb (unscheduled_cap_min * minute_ms) (out - log.clock_in_utc))) [
        | inl long ↦
            moved P (ground (arith, long)) (
              keeps log over_hours (out - log.clock_in_utc - unscheduled_cap_min * minute_ms) d
                once)
        | inr short ↦ moved P (ground (arith, short)) once
      ]
  detect_worked-Keeps log (some s) out d once =
      let once' = detect_early-Keeps log s out d once in
      let d' : Db = (detect_early refuses r company log s out d).1 in
      elim (outcomes (detect_early refuses r company log s out d) d' refl) [
        | inr (e, threw) ↦ moved P (ground (arith, threw)) once'
        | inl (_, went) ↦
            moved P (ground (arith, went))
              (detect_over-Keeps log s (out - log.clock_in_utc) d' once')
      ]

  pub detect_on_close-Keeps :
      (log : AttendanceLog) (d : Db) → P d → P (detect_on_close refuses r company log d).1
  unfolding detect_on_close shift_of
  detect_on_close-Keeps log d once = elim (Option-cases log.clock_out_utc) [
    | inl running ↦ moved P (ground (arith, running)) once
    | inr (out, left) ↦ elim (Option-cases log.shift_id) [
      | inl alone ↦ moved P (ground (arith, left, alone)) (detect_worked-Keeps log none out d once)
      | inr (id, paired) ↦ moved P (ground (arith, left, paired)) (
          detect_worked-Keeps log (find (λ s. s.company_id == company && s.id == id) d.shifts) out d
            once)
    ]
  ]
