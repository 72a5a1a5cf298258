-- ===== src/Scheduling/Planning.antt =====
-- The templates, the copied week and the coverage of scheduling/scheduling.service.ts. The time that a
-- text "HH:MM" names, in milliseconds of the day, is a parameter: `none` is an invalid date, which the
-- insert cannot write.
use vellora_backend.Prelude.{
  not_empty, ℕ, ◌+◌, ◌-◌, ◌*◌, Bool, true, Option, none, some, String, List, [], ◌∷◌, ◌++◌, is_some,
  length,
}
use mathlib.Core.Option.{get_or}
use vellora_backend.Nest.{Action, not_found, internal_error, pure, when, or_throw, ◌>>=◌, ◌>>◌}
use vellora_backend.Access.Principal.{Request, current_user_id}
use vellora_backend.Scheduling.Model.{
  Shift, draft, template, ShiftTemplate, TemplateBlock, Pattern, CoverageTarget, Db,
}
use vellora_backend.Scheduling.Queries.{
  insert_many, store_shifts_between, insert_template, find_template, get_targets, set_targets,
}
use vellora_backend.Scheduling.Service.{assert_store_in_scope}
use vellora_backend.Scheduling.Rules.{day_ms}
use vellora_backend.Scheduling.Rules.{utc_at}
use vellora_backend.Scheduling.Cells.{Cell, days_from}

pub record CreateTemplateDto : Type 0 where
  pub name : String
  pub store_id : Option ℕ
  pub pattern : Option Pattern
  pub active : Option Bool

-- `{}`
abbrev pub no_pattern : Pattern
no_pattern = record {
  mon = none;
  tue = none;
  wed = none;
  thu = none;
  fri = none;
  sat = none;
  sun = none;
}

-- `pattern[key]` for the keys of the week, in order.
abbrev pub days_of : Pattern → List (Option (List TemplateBlock))
days_of p = p.mon ∷ p.tue ∷ p.wed ∷ p.thu ∷ p.fri ∷ p.sat ∷ p.sun ∷ []

-- A list of rows, or `none` where one of them holds an invalid date.
abbrev pub add_row : Option (ℕ → Shift) → Option (List (ℕ → Shift)) → Option (List (ℕ → Shift))
add_row none rows = none
add_row (some v) none = none
add_row (some v) (some vs) = some (v ∷ vs)

abbrev pub join_rows :
    Option (List (ℕ → Shift)) → Option (List (ℕ → Shift)) → Option (List (ℕ → Shift))
join_rows (some v) (some vs) = some (v ++ vs)
join_rows _ _ = none

module _ (r : Request) (company : ℕ) where
  unfoldable pub create_template : CreateTemplateDto → Action Db ShiftTemplate
  unfolding assert_store_in_scope insert_template
  create_template dto = do
    when (is_some dto.store_id) (assert_store_in_scope r company (get_or dto.store_id 0))
    insert_template r company λ id. record {
      id = id;
      company_id = company;
      store_id = dto.store_id;
      name = dto.name;
      pattern = get_or dto.pattern no_pattern;
      active = get_or dto.active true;
    }

module _ (clock : String → Option ℕ) (r : Request) (company : ℕ) where
  -- The row of a block; `none` where a time of it is no time.
  abbrev pub template_row : ℕ → ℕ → TemplateBlock → String → String → Option (ℕ → Shift)
  template_row store_id date block start finish = elim (clock start) [
    | none ↦ none
    | some starts ↦ elim (clock finish) [
      | none ↦ none
      | some ends ↦ some λ id. record {
        id = id;
        company_id = company;
        store_id = store_id;
        employee_id = none;
        activity_id = none;
        role = block.role;
        starts_at_utc = utc_at date + starts;
        ends_at_utc = utc_at date + ends;
        break_minutes = get_or block.break_minutes 0;
        status = draft;
        notes = none;
        source = template;
        created_by = current_user_id r.user;
      }
    ]
  ]

  abbrev pub with_parts :
      ℕ
      → ℕ
      → TemplateBlock
      → Option String
      → Option String
      → Option (List (ℕ → Shift))
      → Option (List (ℕ → Shift))
  with_parts store_id date block (some start) (some finish) rest =
      add_row (template_row store_id date block start finish) rest
  with_parts store_id date block _ _ rest = rest

  -- `if (!block?.start || !block?.end) continue`
  abbrev pub with_block :
      ℕ → ℕ → TemplateBlock → Option (List (ℕ → Shift)) → Option (List (ℕ → Shift))
  with_block store_id date block rest =
      with_parts store_id date block (not_empty block.start) (not_empty block.finish) rest

  unfoldable pub rows_of_day : ℕ → ℕ → List TemplateBlock → Option (List (ℕ → Shift))
  rows_of_day store_id date [] = some []
  rows_of_day store_id date (block ∷ blocks) =
      with_block store_id date block (rows_of_day store_id date blocks)

  -- `WEEKDAY_KEYS.forEach`, from the day `date` on.
  unfoldable pub rows_of_days :
      ℕ → ℕ → List (Option (List TemplateBlock)) → Option (List (ℕ → Shift))
  unfolding rows_of_day
  rows_of_days store_id date [] = some []
  rows_of_days store_id date (none ∷ days) = rows_of_days store_id (date + 1) days
  rows_of_days store_id date (some blocks ∷ days) =
      join_rows (rows_of_day store_id date blocks) (rows_of_days store_id (date + 1) days)

  unfoldable pub apply_template : ℕ → ℕ → ℕ → Action Db ℕ
  unfolding assert_store_in_scope find_template insert_many rows_of_days
  apply_template id store_id week_start = do
    assert_store_in_scope r company store_id
    found ← or_throw (← find_template r company id) (not_found "Template not found.")
    rows ← or_throw (rows_of_days store_id week_start (days_of found.pattern)) internal_error
    created ← insert_many r company rows
    pure (length created)

module _ (r : Request) (company : ℕ) where
  -- `addDays(t, offsetDays)`, where the offset is the one date less the other.
  abbrev pub moved_by : ℕ → ℕ → ℕ → ℕ
  moved_by from_date to_date at = at + to_date * day_ms - from_date * day_ms

  abbrev pub copied : ℕ → ℕ → Shift → ℕ → Shift
  copied from_date to_date s id = record {
    id = id;
    company_id = company;
    store_id = s.store_id;
    employee_id = s.employee_id;
    activity_id = s.activity_id;
    role = s.role;
    starts_at_utc = moved_by from_date to_date s.starts_at_utc;
    ends_at_utc = moved_by from_date to_date s.ends_at_utc;
    break_minutes = s.break_minutes;
    status = draft;
    notes = none;
    source = template;
    created_by = current_user_id r.user;
  }

  abbrev pub copies : ℕ → ℕ → List Shift → List (ℕ → Shift)
  copies from_date to_date [] = []
  copies from_date to_date (s ∷ t) = copied from_date to_date s ∷ copies from_date to_date t

  unfoldable pub copy_week : ℕ → ℕ → ℕ → Action Db ℕ
  unfolding assert_store_in_scope store_shifts_between insert_many
  copy_week store_id from_date to_date = do
    assert_store_in_scope r company store_id
    rows ←
        store_shifts_between r company store_id (utc_at from_date) (utc_at from_date + 7 * day_ms)
    created ← insert_many r company (copies from_date to_date rows)
    pure (length created)

  -- `for (day = from; day < to; …)` makes `last + 1 - since` rounds.
  unfoldable pub coverage : ℕ → ℕ → ℕ → Action Db (List Cell)
  unfolding assert_store_in_scope get_targets store_shifts_between days_from
  coverage store_id since last = do
    assert_store_in_scope r company store_id
    targets ← get_targets r company store_id
    shifts ← store_shifts_between r company store_id (utc_at since) (utc_at last + day_ms)
    pure (days_from targets shifts (last + 1 - since) since)

  abbrev pub target : ℕ → ℕ → ℕ → ℕ → CoverageTarget
  target store_id weekday hour required = record {
    company_id = company;
    store_id = store_id;
    weekday = weekday;
    hour = hour;
    required_staff = required;
  }

  abbrev pub given_rows : ℕ → List (ℕ × ℕ × ℕ) → List CoverageTarget
  given_rows store_id [] = []
  given_rows store_id ((weekday, hour, required) ∷ rest) =
      target store_id weekday hour required ∷ given_rows store_id rest

  -- A target is a weekday, an hour and a number of staff.
  unfoldable pub set_coverage_targets : ℕ → List (ℕ × ℕ × ℕ) → Action Db ℕ
  unfolding assert_store_in_scope set_targets
  set_coverage_targets store_id given = do
    assert_store_in_scope r company store_id
    set_targets r company store_id (given_rows store_id given)
    pure (length given)
