-- ===== src/Scheduling/Service.antt =====
-- scheduling/scheduling.service.ts: the handlers on one shift and the publication. Lengths are held in
-- milliseconds where the source divides them into minutes.
use vellora_backend.Prelude.{
  ℕ, ◌+◌, ◌-◌, ◌*◌, Bool, true, not, Option, none, some, List, [], ◌∷◌, ltb, leb, if◌then◌else◌,
  is_some, length,
}
use mathlib.Core.Option.{get_or}
use vellora_backend.Nest.{
  Action, Done, conflict, forbidden, not_found, pure, when, or_throw, throw_if, ◌>>=◌, ◌>>◌,
}
use vellora_backend.Access.Principal.{Request, scoped_store_ids, current_user_id, is_out_of_scope}
use vellora_backend.Scheduling.Model.{
  Shift, ShiftStatus, draft, assigned, approved, cancelled, off, manual, Store, Db, ShiftFilters,
}
use vellora_backend.Scheduling.Queries.{
  list_shifts, find_by_id, insert_shift, update_shift, remove_shift, find_employee_overlaps,
  count_store_concurrent, employee_shifts_between, publish_range, employee_by_id, store_by_id,
}
use vellora_backend.Scheduling.Rules.{
  CreateShiftDto, UpdateShiftDto, cap_of, day_ms, is_empty, is_on_leave, max_week_minutes,
  minute_ms, start_of_week_utc, sum_durations, with_employee,
}

module _ (r : Request) (company : ℕ) where
  unfoldable pub assert_store_in_scope : ℕ → Action Db Done
  assert_store_in_scope store_id =
      throw_if (is_out_of_scope (scoped_store_ids r.user) (some store_id))
        (forbidden "That store is outside your scope.")

  -- A caller whose scope is empty gets the empty list.
  unfoldable pub list : ShiftFilters → Action Db (List Shift)
  unfolding list_shifts
  list dto = elim (scoped_store_ids r.user) [
    | some [] ↦ pure []
    | some (i ∷ ids) ↦ list_shifts r company dto (some (i ∷ ids))
    | none ↦ list_shifts r company dto none
  ]

  unfoldable pub get : ℕ → Action Db Shift
  unfolding find_by_id assert_store_in_scope
  get id = do
    shift ← or_throw (← find_by_id r company id) (not_found "Shift not found.")
    assert_store_in_scope shift.store_id
    pure shift

  -- The test of the capacity, where the store has one.
  unfoldable pub assert_room : Option Store → ℕ → ℕ → ℕ → Option ℕ → Action Db Done
  unfolding count_store_concurrent
  assert_room store store_id starts ends exclude = when (ltb 0 (cap_of store)) (do
    concurrent ← count_store_concurrent r company store_id starts ends exclude
    throw_if (leb (cap_of store) (with_employee concurrent))
        (conflict "Store is at capacity for this time window."))

  unfoldable pub assert_no_conflicts : ℕ → ℕ → ℕ → ℕ → Option ℕ → Action Db Done
  unfolding find_employee_overlaps employee_by_id employee_shifts_between store_by_id assert_room
  assert_no_conflicts employee_id store_id starts ends exclude = do
    overlaps ← find_employee_overlaps r company employee_id starts ends exclude
    throw_if (not (is_empty overlaps))
        (conflict "Employee is already booked during this time (double-booking).")
    employee ← or_throw (← employee_by_id r company employee_id) (not_found "Employee not found.")
    throw_if (is_on_leave employee.status) (conflict "Employee is on leave for this period.")
    week_shifts ←
        employee_shifts_between r company employee_id (start_of_week_utc starts)
          (start_of_week_utc starts + 7 * day_ms) exclude
    throw_if (ltb (max_week_minutes * minute_ms) (sum_durations week_shifts + (ends - starts)))
        (conflict "This assignment exceeds the weekly hours limit (over-hours).")
    store_row ← store_by_id r company store_id
    assert_room store_row store_id starts ends exclude

  -- `if (employeeId) await assertNoConflicts(…)`
  abbrev pub assert_if_employed : Option ℕ → ℕ → ℕ → ℕ → Option ℕ → Action Db Done
  assert_if_employed none store_id starts ends exclude = pure tt
  assert_if_employed (some e) store_id starts ends exclude =
      assert_no_conflicts e store_id starts ends exclude

  abbrev pub new_shift : CreateShiftDto → ℕ → Shift
  new_shift dto id = record {
    id = id;
    company_id = company;
    store_id = dto.store_id;
    employee_id = dto.employee_id;
    activity_id = dto.activity_id;
    role = dto.role;
    starts_at_utc = dto.starts_at_utc;
    ends_at_utc = dto.ends_at_utc;
    break_minutes = get_or dto.break_minutes 0;
    status = get_or dto.status (if is_some dto.employee_id then assigned else draft);
    notes = dto.notes;
    source = get_or dto.source manual;
    created_by = current_user_id r.user;
  }

  unfoldable pub create : CreateShiftDto → Action Db Shift
  unfolding assert_store_in_scope assert_no_conflicts insert_shift
  create dto = do
    assert_store_in_scope dto.store_id
    assert_if_employed dto.employee_id dto.store_id dto.starts_at_utc dto.ends_at_utc none
    insert_shift r company (new_shift dto)

  -- What `update` writes; a column that is left out is kept.
  abbrev pub updated : Option ℕ → UpdateShiftDto → Shift → Shift
  updated employee_id dto s = record s {
    employee_id = employee_id;
    activity_id = get_or dto.activity_id s.activity_id;
    role = get_or dto.role s.role;
    starts_at_utc = get_or dto.starts_at_utc s.starts_at_utc;
    ends_at_utc = get_or dto.ends_at_utc s.ends_at_utc;
    break_minutes = get_or dto.break_minutes s.break_minutes;
    notes = get_or dto.notes s.notes;
    status = get_or dto.status s.status;
  }

  unfoldable pub update_by_dto : ℕ → UpdateShiftDto → Action Db (Option Shift)
  unfolding get assert_no_conflicts update_shift
  update_by_dto id dto = do
    current ← get id
    let employee_id : Option ℕ = get_or dto.employee_id current.employee_id
    let starts : ℕ = get_or dto.starts_at_utc current.starts_at_utc
    let ends : ℕ = get_or dto.ends_at_utc current.ends_at_utc
    throw_if (leb ends starts) (conflict "End must be after start.")
    assert_if_employed employee_id current.store_id starts ends (some id)
    update_shift r company id (updated employee_id dto)

  abbrev pub status_when_assigned : ShiftStatus → ShiftStatus
  status_when_assigned draft = assigned
  status_when_assigned off = assigned
  status_when_assigned s = s

  unfoldable pub assign : ℕ → Option ℕ → Action Db (Option Shift)
  unfolding get assert_no_conflicts update_shift
  assign id employee_id = do
    shift ← get id
    elim employee_id [
      | none ↦ update_shift r company id (λ s. record s { employee_id = none; status = draft })
      | some e ↦ (do
        assert_no_conflicts e shift.store_id shift.starts_at_utc shift.ends_at_utc (some id)
        update_shift r company id
            λ s. record s { employee_id = some e; status = status_when_assigned shift.status })
    ]

  unfoldable pub approve : ℕ → Action Db (Option Shift)
  unfolding get update_shift
  approve id = do get id; update_shift r company id (λ s. record s { status = approved })

  unfoldable pub cancel : ℕ → Action Db (Option Shift)
  unfolding get update_shift
  cancel id = do get id; update_shift r company id (λ s. record s { status = cancelled })

  unfoldable pub remove : ℕ → Action Db Bool
  unfolding get remove_shift
  remove id = do get id; remove_shift r company id; pure true

  -- The number of published shifts.
  unfoldable pub publish : ℕ → ℕ → ℕ → Action Db ℕ
  unfolding assert_store_in_scope publish_range
  publish store_id since until = do
    assert_store_in_scope store_id
    published ← publish_range r company store_id since until
    pure (length published)
