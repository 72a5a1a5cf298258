-- ===== src/Scheduling/Cells.antt =====
-- The cells of `coverage` of scheduling/scheduling.service.ts.
use vellora_backend.Scheduling.Rules.{hour_ms, utc_at}
use vellora_backend.Prelude.{
  ℕ, zero, suc, ◌+◌, ◌*◌, Bool, true, false, ◌&&◌, Option, none, some, List, [], ◌∷◌, ◌++◌, ◌==◌,
  ltb, if◌then◌else◌,
}
use mathlib.Core.Option.{get_or}
use vellora_backend.Scheduling.Model.{
  Shift, ShiftStatus, assigned, published, approved, CoverageTarget,
}
use vellora_backend.Scheduling.Rules.{weekday_mon0}

-- What `coverage` answers for one hour of a day.
pub record Cell : Type 0 where
  pub date : ℕ
  pub hour : ℕ
  pub required : ℕ
  pub scheduled : ℕ

-- `status === 'assigned' || status === 'published' || status === 'approved'`
abbrev pub is_staffed : ShiftStatus → Bool
is_staffed assigned = true
is_staffed published = true
is_staffed approved = true
is_staffed _ = false

abbrev pub is_at : ℕ → Shift → Bool
is_at slot_start s =
    is_staffed s.status
    && ltb s.starts_at_utc (slot_start + hour_ms)
    && ltb slot_start s.ends_at_utc

abbrev pub count_at : ℕ → List Shift → ℕ
count_at slot_start [] = 0
count_at slot_start (s ∷ t) =
    let rest = count_at slot_start t in if is_at slot_start s then suc rest else rest

-- `targetMap.get(…) ?? 0`, where the last entry of a key counts.
abbrev pub required_in : List CoverageTarget → ℕ → ℕ → Option ℕ
required_in [] weekday hour = none
required_in (t ∷ ts) weekday hour = elim (required_in ts weekday hour) [
  | some n ↦ some n
  | none ↦ if t.weekday == weekday && t.hour == hour then some t.required_staff else none
]

abbrev pub cell : List CoverageTarget → List Shift → ℕ → ℕ → Cell
cell targets shifts date hour = record {
  date = date;
  hour = hour;
  required = get_or (required_in targets (weekday_mon0 (utc_at date)) hour) 0;
  scheduled = count_at (utc_at date + hour * hour_ms) shifts;
}

-- The rounds of the inner loop that are left, from `hour` on.
unfoldable pub hours_from : List CoverageTarget → List Shift → ℕ → ℕ → ℕ → List Cell
hours_from targets shifts date zero hour = []
hours_from targets shifts date (suc rounds) hour =
    cell targets shifts date hour ∷ hours_from targets shifts date rounds (hour + 1)

-- The rounds of the outer loop that are left, from `date` on.
unfoldable pub days_from : List CoverageTarget → List Shift → ℕ → ℕ → List Cell
unfolding hours_from
days_from targets shifts zero date = []
days_from targets shifts (suc rounds) date =
    hours_from targets shifts date 24 0 ++ days_from targets shifts rounds (date + 1)
