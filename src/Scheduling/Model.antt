-- ===== src/Scheduling/Model.antt =====
-- database/schema/shifts.ts and scheduling/scheduling.repository.ts. Times are milliseconds since Monday
-- 0001-01-01, 00:00 UTC, and dates are days since it. Foreign keys, the order of `list` among shifts
-- that start together, and the joined columns that only fill an answer are left out.
use vellora_backend.Prelude.{
  ℕ, Bool, true, false, not, ◌&&◌, ◌||◌, Option, none, some, String, List, [], ◌∷◌, ◌==◌, leb, ltb,
  is_some, is_value,
}
use vellora_backend.Database.{find}

pub data ShiftStatus : Type 0 where
  draft assigned published approved cancelled off : ShiftStatus

pub data ShiftSource : Type 0 where
  manual template suggested : ShiftSource

pub record Shift : Type 0 where
  pub id : ℕ
  pub company_id : ℕ
  pub store_id : ℕ
  pub employee_id : Option ℕ
  pub activity_id : Option ℕ
  pub role : Option String
  pub starts_at_utc : ℕ
  pub ends_at_utc : ℕ
  pub break_minutes : ℕ
  pub status : ShiftStatus
  pub notes : Option String
  pub source : ShiftSource
  pub created_by : Option ℕ

pub record TemplateBlock : Type 0 where
  pub start : Option String
  pub finish : Option String
  pub role : Option String
  pub break_minutes : Option ℕ

-- The keys of `pattern` that are read; `none` is a value that is no array.
pub record Pattern : Type 0 where
  pub mon : Option (List TemplateBlock)
  pub tue : Option (List TemplateBlock)
  pub wed : Option (List TemplateBlock)
  pub thu : Option (List TemplateBlock)
  pub fri : Option (List TemplateBlock)
  pub sat : Option (List TemplateBlock)
  pub sun : Option (List TemplateBlock)

pub record ShiftTemplate : Type 0 where
  pub id : ℕ
  pub company_id : ℕ
  pub store_id : Option ℕ
  pub name : String
  pub pattern : Pattern
  pub active : Bool

pub record CoverageTarget : Type 0 where
  pub company_id : ℕ
  pub store_id : ℕ
  pub weekday : ℕ
  pub hour : ℕ
  pub required_staff : ℕ

pub data EmployeeStatus : Type 0 where
  invited active on_leave suspended archived : EmployeeStatus

pub record Employee : Type 0 where
  pub id : ℕ
  pub company_id : ℕ
  pub status : EmployeeStatus

pub record Store : Type 0 where
  pub id : ℕ
  pub company_id : ℕ
  pub capacity : ℕ

pub record Db : Type 0 where
  pub shifts : List Shift
  pub templates : List ShiftTemplate
  pub targets : List CoverageTarget
  pub employees : List Employee
  pub stores : List Store
  pub drawn : ℕ

pub record ShiftFilters : Type 0 where
  pub store_id : Option ℕ
  pub since : Option ℕ
  pub until : Option ℕ
  pub status : Option ShiftStatus
  pub role : Option String
  pub employee_id : Option ℕ

-- `ACTIVE_STATUSES.includes(status)`
abbrev pub is_active : ShiftStatus → Bool
is_active draft = true
is_active assigned = true
is_active published = true
is_active approved = true
is_active _ = false

abbrev pub same_status : ShiftStatus → ShiftStatus → Bool
same_status draft draft = true
same_status assigned assigned = true
same_status published published = true
same_status approved approved = true
same_status cancelled cancelled = true
same_status off off = true
same_status _ _ = false

abbrev pub by_id : ℕ → ℕ → Shift → Bool
by_id company id s = s.company_id == company && s.id == id

-- `if (excludeId) conds.push(ne(shifts.id, excludeId))`
abbrev pub is_not : Option ℕ → Shift → Bool
is_not none s = true
is_not (some id) s = not (s.id == id)

-- `lt(startsAtUtc, ends), gt(endsAtUtc, starts)`
abbrev pub meets : ℕ → ℕ → Shift → Bool
meets starts ends s = ltb s.starts_at_utc ends && ltb starts s.ends_at_utc

-- `gte(startsAtUtc, from), lt(startsAtUtc, to)`
abbrev pub starts_in : ℕ → ℕ → Shift → Bool
starts_in since until s = leb since s.starts_at_utc && ltb s.starts_at_utc until

abbrev pub overlaps_of : ℕ → ℕ → ℕ → ℕ → Option ℕ → Shift → Bool
overlaps_of company employee_id starts ends exclude s =
    s.company_id == company
    && is_value employee_id s.employee_id
    && is_active s.status
    && meets starts ends s
    && is_not exclude s

abbrev pub concurrent_of : ℕ → ℕ → ℕ → ℕ → Option ℕ → Shift → Bool
concurrent_of company store_id starts ends exclude s =
    s.company_id == company
    && s.store_id == store_id
    && is_active s.status
    && meets starts ends s
    && is_not exclude s

abbrev pub week_of : ℕ → ℕ → ℕ → ℕ → Option ℕ → Shift → Bool
week_of company employee_id since until exclude s =
    s.company_id == company
    && is_value employee_id s.employee_id
    && is_active s.status
    && starts_in since until s
    && is_not exclude s

abbrev pub of_store_in : ℕ → ℕ → ℕ → ℕ → Shift → Bool
of_store_in company store_id since until s =
    s.company_id == company && s.store_id == store_id && starts_in since until s

-- `notInArray(status, ['cancelled', 'off'])`
abbrev pub is_publishable : ShiftStatus → Bool
is_publishable cancelled = false
is_publishable off = false
is_publishable _ = true

abbrev pub target_of_store : ℕ → ℕ → CoverageTarget → Bool
target_of_store company store_id t = t.company_id == company && t.store_id == store_id

-- The key of the unique index.
abbrev pub same_key : CoverageTarget → CoverageTarget → Bool
same_key t u = t.store_id == u.store_id && t.weekday == u.weekday && t.hour == u.hour

abbrev pub has_repeat : List CoverageTarget → Bool
has_repeat [] = false
has_repeat (t ∷ ts) = is_some (find (same_key t) ts) || has_repeat ts
