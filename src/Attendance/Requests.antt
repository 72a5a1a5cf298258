-- ===== src/Attendance/Requests.antt =====
-- The requests to attendance/attendance.service.ts that write logs or breaks, one after another.
use vellora_backend.Prelude.{ℕ, Bool, Option, String, List}
use vellora_backend.Access.Principal.{Request}
use vellora_backend.Terminals.Qr.{Library}
use vellora_backend.Attendance.Model.{Db}
use vellora_backend.Attendance.Service
use vellora_backend.Attendance.Service.{get_log, audit, delete_log}
use vellora_backend.Attendance.Rules.{ClockInDto, PunchDto}
use vellora_backend.Attendance.Batches.{SyncEvent, sync}
use vellora_backend.Attendance.Kiosk.{KioskPunchDto, kiosk_punch}
use vellora_backend.Attendance.Corrections.{approve_correction}
use vellora_backend.Attendance.OnePunch.{IsOnce}
use vellora_backend.Attendance.Punches.{
  clock_in-IsOnce, clock_out-IsOnce, break_start-IsOnce, break_end-IsOnce, delete_log-IsOnce,
}
use vellora_backend.Attendance.Synced.{sync-IsOnce}
use vellora_backend.Attendance.Approvals.{kiosk_punch-IsOnce, approve_correction-IsOnce}

-- A request that a client of the company can make.
pub data Call : Type 0 where
  clocks_in : ClockInDto → Call
  clocks_out : PunchDto → Call
  starts_break : PunchDto → Call
  ends_break : PunchDto → Call
  syncs : List SyncEvent → Call
  punches : KioskPunchDto → Call
  deletes : ℕ → Call
  corrects : ℕ → Call

module _ (l : Library) (ttl : ℕ) (trim : String → String) (new_token : String) (iso : ℕ → String)
    (parse_date : String → Option ℕ) (refuses : ℕ → ℕ → Bool) where
  -- What a request leaves, whether it returns or throws.
  abbrev pub after : Request → ℕ → Call → Db → Db
  after r company (clocks_in dto) d = (Service.clock_in refuses r company dto d).1
  after r company (clocks_out dto) d = (Service.clock_out refuses r company dto d).1
  after r company (starts_break dto) d = (Service.break_start refuses r company dto d).1
  after r company (ends_break dto) d = (Service.break_end refuses r company dto d).1
  after r company (syncs events) d = (sync refuses r company events d).1
  after r company (punches dto) d = (kiosk_punch l ttl trim new_token refuses r company dto d).1
  after r company (deletes id) d = (delete_log refuses r company id d).1
  after r company (corrects id) d = (approve_correction iso parse_date refuses r company id d).1

  -- The databases that requests lead to, in any order, from any user of any company and at any time.
  pub data Reaches (d : Db) : Db → Type 0 where
    here : Reaches d d
    then :
        (d' : Db) (r : Request) (company : ℕ) (call : Call)
        → Reaches d d'
        → Reaches d (after r company call d')

  after-IsOnce :
      (r : Request) (company : ℕ) (call : Call) (d : Db)
      → IsOnce d
      → IsOnce (after r company call d)
  after-IsOnce r company (clocks_in dto) d once = clock_in-IsOnce refuses r company dto d once
  after-IsOnce r company (clocks_out dto) d once = clock_out-IsOnce refuses r company dto d once
  after-IsOnce r company (starts_break dto) d once = break_start-IsOnce refuses r company dto d once
  after-IsOnce r company (ends_break dto) d once = break_end-IsOnce refuses r company dto d once
  after-IsOnce r company (syncs events) d once = sync-IsOnce refuses r company events d once
  after-IsOnce r company (punches dto) d once =
      kiosk_punch-IsOnce l ttl trim new_token refuses r company dto d once
  after-IsOnce r company (deletes id) d once = delete_log-IsOnce refuses r company id d once
  after-IsOnce r company (corrects id) d once =
      approve_correction-IsOnce iso parse_date refuses r company id d once

  -- Whatever sequence of punches, batches, kiosk punches, deletions and approved corrections is made, no
  -- employee ever has two open logs in a company and no log two running breaks, if it was so before.
  pub Reaches-IsOnce : (d d' : Db) → Reaches d d' → IsOnce d → IsOnce d'
  Reaches-IsOnce d _ here once = once
  Reaches-IsOnce d _ (then d' r company call before) once =
      after-IsOnce r company call d' (Reaches-IsOnce d d' before once)
