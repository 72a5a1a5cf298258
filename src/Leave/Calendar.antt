-- ===== src/Leave/Calendar.antt =====
-- `countLeaveDays` of leave/leave.service.ts, over days since 1970-01-01, and the year of a date.
use vellora_backend.Prelude.{
  ℕ, zero, suc, ◌+◌, ◌-◌, ◌*◌, ◌/◌, ◌%◌, Bool, not, ◌&&◌, List, [], ◌∷◌, ◌==◌, leb, if◌then◌else◌,
  includes,
}
use vellora_backend.Leave.Model.{Holiday}

-- `getUTCDay`: 1970-01-01 was a Thursday, and Sunday is 0.
abbrev pub utc_day : ℕ → ℕ
utc_day date = (date + 4) % 7

-- `Number(iso.slice(0, 4))`, the Gregorian year of a day, by eras of 146097 days that begin in March.
unfoldable pub year_of : ℕ → ℕ
year_of date =
    let z : ℕ = date + 719468 in
    let era : ℕ = z / 146097 in
    let doe : ℕ = z % 146097 in
    let yoe : ℕ = (doe + doe / 36524 - doe / 1460 - doe / 146096) / 365 in
    let doy : ℕ = doe + yoe / 100 - (365 * yoe + yoe / 4) in
    era * 400 + yoe + (if leb 306 doy then 1 else 0)

abbrev pub dates : List Holiday → List ℕ
dates [] = []
dates (h ∷ hs) = h.date ∷ dates hs

-- `day !== 0 && day !== 6 && !holidaySet.has(iso)`
abbrev pub is_working_day : List ℕ → ℕ → Bool
is_working_day holidays date =
    not (utc_day date == 0) && not (utc_day date == 6) && not (includes holidays date)

-- The rounds of the loop from `cursor` on; `rounds` of them are left until the cursor passes the end.
unfoldable pub count_from : List ℕ → ℕ → ℕ → ℕ → ℕ
count_from holidays zero cursor count = count
count_from holidays (suc rounds) cursor count =
    count_from holidays rounds (cursor + 1)
      (if is_working_day holidays cursor then count + 1 else count)

-- `while (cursor <= last)` makes `last + 1 - cursor` rounds.
unfoldable pub count_leave_days : ℕ → ℕ → List Holiday → ℕ
unfolding count_from
count_leave_days start last holidays = count_from (dates holidays) (last + 1 - start) start 0
