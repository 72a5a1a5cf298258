-- ===== src/Scheduling/Queries.antt =====
-- The queries and writes of scheduling/scheduling.repository.ts.
use vellora_backend.Prelude.{
  ℕ, suc, ◌+◌, Bool, false, ◌&&◌, Option, none, some, String, List, [], ◌∷◌, ◌++◌, map, ◌==◌, leb,
  ltb, if◌then◌else◌, is_value, includes, unless_given, sort_by, str_eq,
}
use vellora_backend.Nest.{Action, Done, ok, err, database_error, gets, modify}
use vellora_backend.Database.{find, select, update, delete}
use vellora_backend.Access.Principal.{Request}
use vellora_backend.Scheduling.Model.{
  Shift, published, ShiftTemplate, CoverageTarget, Employee, Store, Db, ShiftFilters, same_status,
  by_id, overlaps_of, concurrent_of, week_of, of_store_in, is_publishable, target_of_store,
  has_repeat,
}

abbrev pub is_role : String → Option String → Bool
is_role x none = false
is_role x (some y) = str_eq y x

abbrev pub passes : ShiftFilters → Option (List ℕ) → Shift → Bool
passes f scope s =
    unless_given (λ ids. includes ids s.store_id) scope
    && unless_given (λ i. s.store_id == i) f.store_id
    && unless_given (λ x. same_status s.status x) f.status
    && unless_given (λ x. is_role x s.role) f.role
    && unless_given (λ e. is_value e s.employee_id) f.employee_id
    && unless_given (λ t. ltb s.starts_at_utc t) f.until
    && unless_given (λ t. ltb t s.ends_at_utc) f.since

abbrev pub starts_before : Shift → Shift → Bool
starts_before a b = leb a.starts_at_utc b.starts_at_utc

-- The rows that one `insert` adds, each with the next id.
abbrev pub rows_of : (ℕ → ℕ) → List (ℕ → Shift) → ℕ → List Shift
rows_of uuid [] n = []
rows_of uuid (v ∷ vs) n = v (uuid n) ∷ rows_of uuid vs (suc n)

abbrev pub count : List (ℕ → Shift) → ℕ
count [] = 0
count (v ∷ vs) = suc (count vs)

module _ (r : Request) (company : ℕ) where
  unfoldable pub list_shifts : ShiftFilters → Option (List ℕ) → Action Db (List Shift)
  list_shifts filters scope = gets λ d.
      sort_by starts_before
        (select (λ s. s.company_id == company && passes filters scope s) d.shifts)

  unfoldable pub find_by_id : ℕ → Action Db (Option Shift)
  find_by_id id = gets λ d. find (by_id company id) d.shifts

  unfoldable pub insert_shift : (ℕ → Shift) → Action Db Shift
  insert_shift row d =
      let s : Shift = row (r.uuid d.drawn) in
      (ok s, record d { shifts = s ∷ d.shifts; drawn = suc d.drawn })

  unfoldable pub insert_many : List (ℕ → Shift) → Action Db (List Shift)
  insert_many values d =
      let rows = rows_of r.uuid values d.drawn in
      (ok rows, record d { shifts = rows ++ d.shifts; drawn = d.drawn + count values })

  unfoldable pub update_shift : ℕ → (Shift → Shift) → Action Db (Option Shift)
  update_shift id f d =
      let t = update (by_id company id) f d.shifts in
      (ok (find (by_id company id) t), record d { shifts = t })

  unfoldable pub remove_shift : ℕ → Action Db Done
  remove_shift id = modify λ d. record d { shifts = delete (by_id company id) d.shifts }

  unfoldable pub find_employee_overlaps : ℕ → ℕ → ℕ → Option ℕ → Action Db (List Shift)
  find_employee_overlaps employee_id starts ends exclude =
      gets λ d. select (overlaps_of company employee_id starts ends exclude) d.shifts

  unfoldable pub count_store_concurrent : ℕ → ℕ → ℕ → Option ℕ → Action Db (List Shift)
  count_store_concurrent store_id starts ends exclude =
      gets λ d. select (concurrent_of company store_id starts ends exclude) d.shifts

  unfoldable pub employee_shifts_between : ℕ → ℕ → ℕ → Option ℕ → Action Db (List Shift)
  employee_shifts_between employee_id since until exclude =
      gets λ d. select (week_of company employee_id since until exclude) d.shifts

  unfoldable pub store_shifts_between : ℕ → ℕ → ℕ → Action Db (List Shift)
  store_shifts_between store_id since until =
      gets λ d. select (of_store_in company store_id since until) d.shifts

  abbrev pub is_published_by : ℕ → ℕ → ℕ → Shift → Bool
  is_published_by store_id since until s =
      of_store_in company store_id since until s && is_publishable s.status

  -- The rows that `returning` gives are those that were written.
  unfoldable pub publish_range : ℕ → ℕ → ℕ → Action Db (List Shift)
  publish_range store_id since until d =
      let mark : Shift → Shift = λ s. record s { status = published } in
      let p = is_published_by store_id since until in
      (ok (map mark (select p d.shifts)), record d { shifts = update p mark d.shifts })

  unfoldable pub employee_by_id : ℕ → Action Db (Option Employee)
  employee_by_id id = gets λ d. find (λ e. e.company_id == company && e.id == id) d.employees

  unfoldable pub store_by_id : ℕ → Action Db (Option Store)
  store_by_id id = gets λ d. find (λ s. s.company_id == company && s.id == id) d.stores

  unfoldable pub insert_template : (ℕ → ShiftTemplate) → Action Db ShiftTemplate
  insert_template row d =
      let t : ShiftTemplate = row (r.uuid d.drawn) in
      (ok t, record d { templates = t ∷ d.templates; drawn = suc d.drawn })

  unfoldable pub find_template : ℕ → Action Db (Option ShiftTemplate)
  find_template id = gets λ d. find (λ t. t.company_id == company && t.id == id) d.templates

  unfoldable pub get_targets : ℕ → Action Db (List CoverageTarget)
  get_targets store_id = gets λ d. select (target_of_store company store_id) d.targets

  -- One transaction: a repeated key makes the index refuse it all.
  unfoldable pub set_targets : ℕ → List CoverageTarget → Action Db Done
  set_targets store_id rows d =
      let t = rows ++ delete (target_of_store company store_id) d.targets in
      if has_repeat t then (err database_error, d) else (ok tt, record d { targets = t })
