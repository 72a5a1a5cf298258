-- ===== src/Leave/WorkingDays.antt =====
-- What `countLeaveDays` of leave/leave.service.ts counts.
use vellora_backend.Prelude.{
  ℕ, zero, suc, ◌+◌, ◌-◌, ◌*◌, ◌≤◌, ◌≡◌, refl, List, [], arith, if◌then◌else◌, Bool-cases, inl, inr,
}
use vellora_backend.Leave.Model.{Holiday}
use vellora_backend.Leave.Calendar.{dates, is_working_day, count_from, count_leave_days}

-- The working days among the `n` days from `start` on.
unfoldable pub working : List ℕ → ℕ → ℕ → ℕ
working hs zero start = 0
working hs (suc n) start = (if is_working_day hs start then 1 else 0) + working hs n (start + 1)

count_from-working :
    (hs : List ℕ) (n cursor count : ℕ) → count_from hs n cursor count ≡ count + working hs n cursor
unfolding count_from working
count_from-working hs zero cursor count = omega arith
count_from-working hs (suc n) cursor count = elim (Bool-cases (is_working_day hs cursor)) [
  | inl on ↦ rw (on, count_from-working hs n (cursor + 1) (count + 1)) (omega arith)
  | inr off ↦ rw (off, count_from-working hs n (cursor + 1) count) (omega arith)
]

count_leave_days-working :
    (start last : ℕ) (hs : List Holiday)
    → count_leave_days start last hs ≡ working (dates hs) (last + 1 - start) start
unfolding count_leave_days
count_leave_days-working start last hs =
    omega (arith, count_from-working (dates hs) (last + 1 - start) start 0)

working-append :
    (hs : List ℕ) (m n start : ℕ)
    → working hs (m + n) start ≡ working hs m start + working hs n (start + m)
unfolding working
working-append hs zero n start =
    let none_passed : start + 0 ≡ start = omega arith in
    let all_left : 0 + n ≡ n = omega arith in rw (none_passed, all_left) (omega arith)
working-append hs (suc m) n start =
    let shift : start + 1 + m ≡ start + suc m = omega arith in
    let more : suc m + n ≡ suc (m + n) = omega arith in
    rw (more, working-append hs m n (start + 1), shift) (omega arith)

working-holidays : (hs : List ℕ) (n start : ℕ) → working hs n start ≤ working [] n start
unfolding working
working-holidays hs zero start = omega arith
working-holidays hs (suc n) start = let ih = working-holidays hs n (start + 1) in ground (arith, ih)

working-week : (start : ℕ) → working [] 7 start ≡ 5
unfolding working
working-week start = ground arith

working-weeks : (k start : ℕ) → working [] (7 * k) start ≡ 5 * k
unfolding working
working-weeks zero start = refl
working-weeks (suc k) start =
    let more : 7 * suc k ≡ 7 + 7 * k = omega arith in
    rw (more, working-append [] 7 (7 * k) start, working-week start, working-weeks k (start + 7))
      (omega arith)

-- A range that is cut after the day `middle` counts as its two parts do, whatever the holidays.
pub count_leave_days-split :
    (start middle last : ℕ) (hs : List Holiday)
    → start ≤ middle + 1
    → middle ≤ last
    → count_leave_days start last hs
      ≡ count_leave_days start middle hs + count_leave_days (middle + 1) last hs
count_leave_days-split start middle last hs h k =
    let days : last + 1 - start ≡ (middle + 1 - start) + (last + 1 - (middle + 1)) = omega arith in
    let next : start + (middle + 1 - start) ≡ middle + 1 = omega arith in
    rw
      (
        count_leave_days-working start last hs,
        count_leave_days-working start middle hs,
        count_leave_days-working (middle + 1) last hs,
        days,
        working-append (dates hs) (middle + 1 - start) (last + 1 - (middle + 1)) start,
        next,
      )
      refl

-- `k` whole weeks without holidays count 5 days each, whatever weekday they begin on, and holidays
-- never add a day.
pub count_leave_days-weeks :
    (start k : ℕ) (hs : List Holiday)
    → (count_leave_days start (start + 7 * suc k - 1) [] ≡ 5 * suc k)
      × (count_leave_days start (start + 7 * suc k - 1) hs ≤ 5 * suc k)
count_leave_days-weeks start k hs =
    let n = start + 7 * suc k - 1 in
    let rounds : n + 1 - start ≡ 7 * suc k = omega arith in
    let full : working [] (n + 1 - start) start ≡ 5 * suc k =
      rw rounds (working-weeks (suc k) start) in
    (
      rw (count_leave_days-working start n []) full,
      omega (
        arith,
        count_leave_days-working start n hs,
        full,
        working-holidays (dates hs) (n + 1 - start) start,
      ),
    )
