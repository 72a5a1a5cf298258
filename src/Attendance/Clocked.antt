-- ===== src/Attendance/Clocked.antt =====
-- The row that `clockIn` of attendance/attendance.service.ts returns.
use vellora_backend.Prelude.{
  ℕ, ◌≡◌, refl, Bool, Option, some, arith, Bool-cases, Option-cases, inl, inr,
}
use mathlib.Core.Option.{get_or}
use vellora_backend.Nest.{ok, outcomes}
use vellora_backend.Database.{select}
use vellora_backend.Access.Principal.{Request, scoped_store_ids, is_out_of_scope}
use vellora_backend.Scheduling.Model.{Shift}
use vellora_backend.Attendance.Model.{AttendanceLog, Db, open_of, latest}
use vellora_backend.Attendance.Queries.{create_log}
use vellora_backend.Attendance.Service.{new_log, clock_in, detect_late}
use vellora_backend.Attendance.Rules.{ClockInDto}
use vellora_backend.Attendance.Punches.{find_open_log_lem, shift_for_lem, create_log_lem}

module _ (refuses : ℕ → ℕ → Bool) (r : Request) (company : ℕ) where
  pub clock_in-new_log :
      (dto : ClockInDto) (l : AttendanceLog) (d : Db)
      → (clock_in refuses r company dto d).0 ≡ ok l
      → (shift : Option Shift) × (l
          ≡ new_log refuses r company dto shift (get_or dto.at_utc r.now) (r.uuid d.drawn))
  unfolding clock_in
  clock_in-new_log dto l d returned =
      elim (Bool-cases (is_out_of_scope (scoped_store_ids r.user) (some dto.store_id))) [
        | inl out ↦ absurd (ground (arith, out, returned))
        | inr reach ↦
            let asked = find_open_log_lem refuses r company dto.employee_id d in
            let at : ℕ = get_or dto.at_utc r.now in
            let (shift, paired) =
              shift_for_lem refuses r company dto.shift_id dto.employee_id at d in
            let row = new_log refuses r company dto shift at in
            elim (Option-cases (
              latest (λ (l : AttendanceLog). l.clock_in_utc)
                (select (open_of company dto.employee_id) d.logs))) [
                  | inr (l, found) ↦ absurd (ground (arith, reach, asked, found, returned))
                  | inl absent ↦
                      let made = create_log_lem refuses r company row d in
                      let detect =
                        detect_late refuses r company (row (r.uuid d.drawn)) shift at
                          (create_log r company row d).1 in
                      elim (outcomes detect detect.1 refl) [
                        | inr (e, threw) ↦
                            absurd
                              (ground (arith, reach, asked, absent, paired, made, threw, returned))
                        | inl (_, checked) ↦ (
                          shift,
                          ground (arith, reach, asked, absent, paired, made, checked, returned),
                        )
                      ]
                ]
      ]
