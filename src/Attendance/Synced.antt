-- ===== src/Attendance/Synced.antt =====
-- `sync` of attendance/attendance.service.ts: no batch clocks an employee in twice.
use vellora_backend.Prelude.{
  ℕ, ◌+◌, ◌≡◌, refl, Bool, Option, none, some, List, [], ◌∷◌, sort_by, arith, Option-cases, inl,
  inr,
}
use vellora_backend.Nest.{ok, outcomes}
use vellora_backend.Database.{select}
use vellora_backend.Access.Principal.{Request}
use vellora_backend.Attendance.Model.{AttendanceLog, Db, offline_sync, open_of, latest}
use vellora_backend.Attendance.Queries.{update_log, find_open_log}
use vellora_backend.Attendance.Service
use vellora_backend.Attendance.Batches.{
  Kind, clock_in, clock_out, break_start, break_end, SyncEvent, SyncResult, as_clock_in, as_punch,
  is_not_after, mark_offline, apply_event, counted, flush, nothing_yet, sync,
}
use vellora_backend.Attendance.OnePunch.{IsOnce, moved, update_log-IsOnce}
use vellora_backend.Attendance.Punches.{
  clock_in-IsOnce, clock_out-IsOnce, break_start-IsOnce, break_end-IsOnce,
}

module _ (refuses : ℕ → ℕ → Bool) (r : Request) (company : ℕ) where
  find_open_log_lem :
      (e : ℕ) (d : Db)
      → find_open_log r company e d
        ≡ (ok (latest (λ l. l.clock_in_utc) (select (open_of company e) d.logs)), d)
  unfolding find_open_log
  find_open_log_lem e d = refl

  mark_offline-IsOnce :
      (o : Option AttendanceLog) (d : Db) → IsOnce d → IsOnce (mark_offline refuses r company o d).1
  unfolding mark_offline update_log
  mark_offline-IsOnce none d once = once
  mark_offline-IsOnce (some log) d once =
      update_log-IsOnce r company log.id (λ l. record l { source = offline_sync }) d
        (λ l c e on. on) once

  apply_event-IsOnce :
      (ev : SyncEvent) (d : Db) → IsOnce d → IsOnce (apply_event refuses r company ev d).1
  unfolding apply_event
  apply_event-IsOnce ev d once = at ev.kind refl
    where
      at : (k : Kind) → ev.kind ≡ k → IsOnce (apply_event refuses r company ev d).1
      at clock_in is = elim (Option-cases ev.store_id) [
        | inl nowhere ↦ moved (ground (arith, is, nowhere)) once
        | inr (store_id, named) ↦
            let m = Service.clock_in refuses r company (as_clock_in ev store_id) d in
            let once' = clock_in-IsOnce refuses r company (as_clock_in ev store_id) d once in
            elim (outcomes m m.1 refl) [
              | inr (e, threw) ↦ moved (ground (arith, is, named, threw)) once'
              | inl (log, came) ↦
                  moved (ground (arith, is, named, came, find_open_log_lem ev.employee_id m.1)) (
                    mark_offline-IsOnce
                      (latest (λ l. l.clock_in_utc)
                        (select (open_of company ev.employee_id) m.1.logs))
                      m.1 once')
            ]
      ]
      at clock_out is =
          moved (ground (arith, is)) (clock_out-IsOnce refuses r company (as_punch ev none) d once)
      at break_start is =
          moved (ground (arith, is))
            (break_start-IsOnce refuses r company (as_punch ev ev.paid) d once)
      at break_end is =
          moved (ground (arith, is)) (break_end-IsOnce refuses r company (as_punch ev none) d once)

  flush-IsOnce :
      (evs : List SyncEvent) (index : ℕ) (x : SyncResult) (d : Db)
      → IsOnce d
      → IsOnce (flush refuses r company evs index x d).1
  unfolding flush
  flush-IsOnce [] index x d once = once
  flush-IsOnce (ev ∷ evs) index x d once =
      flush-IsOnce evs (index + 1)
        (counted refuses r company index (apply_event refuses r company ev d).0 x)
        (apply_event refuses r company ev d).1 (apply_event-IsOnce ev d once)

  pub sync-IsOnce :
      (events : List SyncEvent) (d : Db) → IsOnce d → IsOnce (sync refuses r company events d).1
  unfolding sync
  sync-IsOnce events d once =
      flush-IsOnce (sort_by is_not_after events) 0 (nothing_yet refuses r company) d once
