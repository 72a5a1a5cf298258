-- ===== src/Attendance/Batches.antt =====
-- `sync` of attendance/attendance.service.ts. An error is kept as its exception, whose message the source
-- answers.
use vellora_backend.Prelude.{ℕ, ◌+◌, Bool, Option, none, some, List, [], ◌∷◌, ◌++◌, leb, sort_by}
use vellora_backend.Nest.{
  Action, Done, Result, ok, err, Exception, conflict, pure, or_throw, ◌>>=◌, ◌>>◌,
}
use vellora_backend.Access.Principal.{Request}
use vellora_backend.Attendance.Model.{AttendanceLog, Method, offline_sync, Db}
use vellora_backend.Attendance.Queries.{find_open_log, update_log}
use vellora_backend.Attendance.Rules.{ClockInDto, PunchDto}
use vellora_backend.Attendance.Service

pub data Kind : Type 0 where
  clock_in clock_out break_start break_end : Kind

pub record SyncEvent : Type 0 where
  pub kind : Kind
  pub employee_id : ℕ
  pub store_id : Option ℕ
  pub shift_id : Option ℕ
  pub method : Option Method
  pub terminal_id : Option ℕ
  pub device_id : Option ℕ
  pub at_utc : ℕ
  pub paid : Option Bool

pub record SyncError : Type 0 where
  pub index : ℕ
  pub error : Exception

pub record SyncResult : Type 0 where
  pub applied : ℕ
  pub failed : ℕ
  pub errors : List SyncError

abbrev pub as_clock_in : SyncEvent → ℕ → ClockInDto
as_clock_in ev store_id = record {
  employee_id = ev.employee_id;
  store_id = store_id;
  shift_id = ev.shift_id;
  method = ev.method;
  device_id = ev.device_id;
  terminal_id = ev.terminal_id;
  at_utc = some ev.at_utc;
  notes = none;
}

abbrev pub as_punch : SyncEvent → Option Bool → PunchDto
as_punch ev paid = record {
  log_id = none;
  employee_id = some ev.employee_id;
  at_utc = some ev.at_utc;
  paid = paid;
}

-- `a.atUtc.getTime() - b.atUtc.getTime()`, as the order of the sort.
abbrev pub is_not_after : SyncEvent → SyncEvent → Bool
is_not_after a b = leb a.at_utc b.at_utc

module _ (refuses : ℕ → ℕ → Bool) (r : Request) (company : ℕ) where
  -- `if (open) await updateLog(open.id, { source: 'offline_sync' })`
  unfoldable pub mark_offline : Option AttendanceLog → Action Db Done
  unfolding update_log
  mark_offline none = pure tt
  mark_offline (some log) = do
    update_log r company log.id (λ l. record l { source = offline_sync })
    pure tt

  -- The body of `try`.
  unfoldable pub apply_event : SyncEvent → Action Db Done
  unfolding Service.clock_in Service.clock_out Service.break_start Service.break_end find_open_log
      mark_offline
  apply_event ev = elim ev.kind [
    | clock_in ↦ (do
      store_id ← or_throw ev.store_id (conflict "storeId required for clock_in.")
      Service.clock_in refuses r company (as_clock_in ev store_id)
      current ← find_open_log r company ev.employee_id
      mark_offline current)
    | clock_out ↦ (do Service.clock_out refuses r company (as_punch ev none); pure tt)
    | break_start ↦ (do Service.break_start refuses r company (as_punch ev ev.paid); pure tt)
    | break_end ↦ (do Service.break_end refuses r company (as_punch ev none); pure tt)
  ]

  -- One round of the loop: what a failed event wrote before it threw stays.
  abbrev pub counted : ℕ → Result Done → SyncResult → SyncResult
  counted index (ok a) x = record x { applied = x.applied + 1 }
  counted index (err e) x = record x {
    failed = x.failed + 1;
    errors = x.errors ++ record { index = index; error = e } ∷ [];
  }

  -- The rounds over the events that are left, the first of which has this index.
  unfoldable pub flush : List SyncEvent → ℕ → SyncResult → Db → SyncResult × Db
  unfolding apply_event
  flush [] index x d = (x, d)
  flush (ev ∷ evs) index x d =
      let (res, d') = apply_event ev d in flush evs (index + 1) (counted index res x) d'

  abbrev pub nothing_yet : SyncResult
  nothing_yet = record { applied = 0; failed = 0; errors = [] }

  unfoldable pub sync : List SyncEvent → Db → SyncResult × Db
  unfolding flush
  sync events d = flush (sort_by is_not_after events) 0 nothing_yet d
