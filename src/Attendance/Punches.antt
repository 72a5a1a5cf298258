-- ===== src/Attendance/Punches.antt =====
-- The punches of attendance/attendance.service.ts, handler by handler: none clocks an employee in twice.
use vellora_backend.Prelude.{
  ℕ, ◌≡◌, refl, Bool, Option, none, some, leb, arith, Bool-cases, Option-cases, inl, inr,
}
use mathlib.Core.Option.{get_or}
use vellora_backend.Nest.{ok, outcomes}
use vellora_backend.Database.{find, select}
use vellora_backend.Database.Pairs.{find-none-select}
use vellora_backend.Access.Principal.{Request, scoped_store_ids, is_out_of_scope}
use vellora_backend.Scheduling.Model.{Shift}
use vellora_backend.Attendance.Model.{
  AttendanceLog, AttendanceBreak, Db, closed, by_id, open_of, open_break_of, latest,
}
use vellora_backend.Attendance.Queries.{
  update_log, create_log, delete_log_row, find_open_log, find_open_break, find_scheduled_shift,
  shift_by_id,
}
use vellora_backend.Attendance.Service.{
  new_log, shift_for, get_log, resolve_open_log, end_break, close_break, clock_in, clock_out,
  break_start, break_end, delete_log, new_break, audit,
}
use vellora_backend.Attendance.Rules.{ClockInDto, PunchDto}
use vellora_backend.Attendance.Detection.{detect_on_close-Keeps}
use vellora_backend.Attendance.OnePunch.{
  IsOnce, moved, elsewhere, latest-none, update_log-IsOnce, update_break-IsOnce,
  delete_log_row-IsOnce, create_log-IsOnce, create_break-IsOnce, find_open_log-none,
  raise_anomaly-IsOnce, detect_late-IsOnce,
}

module _ (refuses : ℕ → ℕ → Bool) (r : Request) (company : ℕ) where
  pub get_log_lem : (id : ℕ) (d : Db) → (get_log refuses r company id d).1 ≡ d
  unfolding get_log
  get_log_lem id d = ground arith

  pub resolve_open_log_lem :
      (dto : PunchDto) (d : Db) → (resolve_open_log refuses r company dto d).1 ≡ d
  unfolding resolve_open_log find_open_log
  resolve_open_log_lem dto d = elim (Option-cases dto.log_id) [
    | inr (id, named) ↦ ground (arith, named, get_log_lem id d)
    | inl unnamed ↦ ground (arith, unnamed)
  ]

  end_break-IsOnce :
      (b : AttendanceBreak) (at : ℕ) (d : Db)
      → IsOnce d
      → IsOnce (end_break refuses r company b at d).1
  unfolding end_break
  end_break-IsOnce b at d once = elim (Bool-cases (refuses b.start_utc at)) [
    | inl refused ↦ moved (ground (arith, refused)) once
    | inr taken ↦ moved (ground (arith, taken)) (update_break-IsOnce r company b.id at d once)
  ]

  close_break-IsOnce :
      (o : Option AttendanceBreak) (at : ℕ) (d : Db)
      → IsOnce d
      → IsOnce (close_break refuses r company o at d).1
  unfolding close_break
  close_break-IsOnce none at d once = once
  close_break-IsOnce (some b) at d once = moved (ground arith) (end_break-IsOnce b at d once)

  pub shift_for_lem :
      (o : Option ℕ) (e at : ℕ) (d : Db)
      → (x : Option Shift) × (shift_for refuses r company o e at d ≡ (ok x, d))
  unfolding shift_for find_scheduled_shift shift_by_id
  shift_for_lem none e at d = (_, refl)
  shift_for_lem (some id) e at d = (_, refl)

  pub find_open_log_lem :
      (e : ℕ) (d : Db)
      → find_open_log r company e d
        ≡ (ok (latest (λ l. l.clock_in_utc) (select (open_of company e) d.logs)), d)
  unfolding find_open_log
  find_open_log_lem e d = refl

  pub create_log_lem :
      (row : ℕ → AttendanceLog) (d : Db)
      → create_log r company row d ≡ (ok (row (r.uuid d.drawn)), (create_log r company row d).1)
  unfolding create_log
  create_log_lem row d = refl

  pub update_log_lem :
      (id : ℕ) (f : AttendanceLog → AttendanceLog) (d : Db)
      → update_log r company id f d ≡ (
        ok (find (by_id company id) (update_log r company id f d).1.logs),
        (update_log r company id f d).1,
      )
  unfolding update_log
  update_log_lem id f d = refl

  pub clock_in-IsOnce :
      (dto : ClockInDto) (d : Db) → IsOnce d → IsOnce (clock_in refuses r company dto d).1
  unfolding clock_in
  clock_in-IsOnce dto d once =
      elim (Bool-cases (is_out_of_scope (scoped_store_ids r.user) (some dto.store_id))) [
        | inl out ↦ moved (ground (arith, out)) once
        | inr reach ↦
            let asked = find_open_log_lem dto.employee_id d in
            let at : ℕ = get_or dto.at_utc r.now in
            let (shift, paired) = shift_for_lem dto.shift_id dto.employee_id at d in
            let row = new_log refuses r company dto shift at in
            elim (Option-cases (
              latest (λ (l : AttendanceLog). l.clock_in_utc)
                (select (open_of company dto.employee_id) d.logs))) [
                  | inr (l, found) ↦ moved (ground (arith, reach, asked, found)) once
                  | inl absent ↦
                      let free = find_open_log-none r company dto.employee_id d absent in
                      let once' = create_log-IsOnce r company row d free once in
                      let d' : Db = (create_log r company row d).1 in
                      let made : create_log r company row d ≡ (ok (row (r.uuid d.drawn)), d') =
                        create_log_lem row d in
                      moved (ground (arith, reach, asked, absent, paired, made)) (
                        detect_late-IsOnce refuses r company (row (r.uuid d.drawn)) shift at d'
                          once')
                ]
      ]

  pub clock_out-IsOnce :
      (dto : PunchDto) (d : Db) → IsOnce d → IsOnce (clock_out refuses r company dto d).1
  unfolding clock_out find_open_break
  clock_out-IsOnce dto d once =
      elim (outcomes (resolve_open_log refuses r company dto d) d (resolve_open_log_lem dto d)) [
        | inr (e, threw) ↦ moved (ground (arith, threw)) once
        | inl (log, got) ↦
            let at : ℕ = get_or dto.at_utc r.now in
            elim (Bool-cases (leb at log.clock_in_utc)) [
              | inl early ↦ moved (ground (arith, got, early)) once
              | inr later ↦
                  let o =
                    latest (λ (b : AttendanceBreak). b.start_utc)
                      (select (open_break_of company log.id) d.breaks) in
                  let d' : Db = (close_break refuses r company o at d).1 in
                  let once' = close_break-IsOnce o at d once in
                  elim (outcomes (close_break refuses r company o at d) d' refl) [
                    | inr (e, threw) ↦ moved (ground (arith, got, later, threw)) once'
                    | inl (_, shut) ↦
                        let f : AttendanceLog → AttendanceLog =
                          λ l. record l { clock_out_utc = some at; status = closed } in
                        let d'' : Db = (update_log r company log.id f d').1 in
                        let once'' =
                          update_log-IsOnce r company log.id f d' (λ l c e on. ground (arith, on))
                            once' in
                        let put = update_log_lem log.id f d' in
                        elim (Option-cases (find (by_id company log.id) d''.logs)) [
                          | inl gone ↦ moved (ground (arith, got, later, shut, put, gone)) once''
                          | inr (l, found) ↦ moved (ground (arith, got, later, shut, put, found)) (
                              detect_on_close-Keeps refuses r company IsOnce
                                (raise_anomaly-IsOnce refuses r company) l d'' once'')
                        ]
                  ]
            ]
      ]

  pub break_start-IsOnce :
      (dto : PunchDto) (d : Db) → IsOnce d → IsOnce (break_start refuses r company dto d).1
  unfolding break_start find_open_break
  break_start-IsOnce dto d once =
      elim (outcomes (resolve_open_log refuses r company dto d) d (resolve_open_log_lem dto d)) [
        | inr (e, threw) ↦ moved (ground (arith, threw)) once
        | inl (log, got) ↦
            elim (Option-cases (
              latest (λ (b : AttendanceBreak). b.start_utc)
                (select (open_break_of company log.id) d.breaks))) [
                  | inr (b, found) ↦ moved (ground (arith, got, found)) once
                  | inl absent ↦
                      let free = find-none-select (open_break_of company log.id) d.breaks (
                        latest-none (λ (b : AttendanceBreak). b.start_utc)
                          (select (open_break_of company log.id) d.breaks) absent) in
                      moved (ground (arith, got, absent)) (
                        create_break-IsOnce r company (new_break refuses r company dto log) d free
                          once)
                ]
      ]

  pub break_end-IsOnce :
      (dto : PunchDto) (d : Db) → IsOnce d → IsOnce (break_end refuses r company dto d).1
  unfolding break_end find_open_break
  break_end-IsOnce dto d once =
      elim (outcomes (resolve_open_log refuses r company dto d) d (resolve_open_log_lem dto d)) [
        | inr (e, threw) ↦ moved (ground (arith, threw)) once
        | inl (log, got) ↦
            elim (Option-cases (
              latest (λ (b : AttendanceBreak). b.start_utc)
                (select (open_break_of company log.id) d.breaks))) [
                  | inl absent ↦ moved (ground (arith, got, absent)) once
                  | inr (b, found) ↦
                      moved (ground (arith, got, found))
                        (end_break-IsOnce b (get_or dto.at_utc r.now) d once)
                ]
      ]

  pub delete_log-IsOnce :
      (id : ℕ) (d : Db) → IsOnce d → IsOnce (delete_log refuses r company id d).1
  unfolding delete_log audit delete_log_row
  delete_log-IsOnce id d once =
      elim (outcomes (get_log refuses r company id d) d (get_log_lem id d)) [
        | inr (e, threw) ↦ moved (ground (arith, threw)) once
        | inl (log, got) ↦
            elsewhere (delete_log_row r company id d).1 (delete_log refuses r company id d).1
              (ground (arith, got)) (ground (arith, got))
              (delete_log_row-IsOnce r company id d once)
      ]
