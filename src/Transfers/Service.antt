-- ===== src/Transfers/Service.antt =====
-- transfers/transfers.service.ts, handler by handler.
use vellora_backend.Prelude.{
  ℕ, ◌+◌, ◌/◌, Bool, true, false, not, ◌&&◌, ◌||◌, Option, none, some, String, List, [], ◌∷◌, leb,
  if◌then◌else◌, unless_given, take, is_value, sort_by, ◌==◌, includes,
}
use vellora_backend.Nest.{
  Action, Done, conflict, not_found, forbidden, pure, gets, modify, or_throw, throw_if, ◌>>=◌, ◌>>◌,
}
use vellora_backend.Database.{select, unless_undefined}
use vellora_backend.Access.Principal.{Request, scoped_store_ids, current_user_id, is_out_of_scope}
use vellora_backend.Transfers.Model.{
  Kind, permanent, Status, requested, approved, active, completed, rejected, cancelled, Transfer,
  Db, is_kind, is_status, find_transfer, find_employee, insert_transfer, update_transfer,
  set_primary_store, add_link, remove_link, due_to_activate, due_to_revert,
}

pub record CreateTransferDto : Type 0 where
  pub employee_id : ℕ
  pub from_store_id : Option ℕ
  pub to_store_id : ℕ
  pub kind : Kind
  pub start_date : Option ℕ
  pub end_date : Option ℕ
  pub reason : Option String

pub record ListTransfersDto : Type 0 where
  pub employee_id : Option ℕ
  pub status : Option Status
  pub kind : Option Kind

-- `a ?? b`
abbrev pub or_else : Option ℕ → Option ℕ → Option ℕ
or_else none b = b
or_else (some a) b = some a

-- The tests of the list query, and the order and the limit that it asks for.
abbrev pub matches_filters : ℕ → ListTransfersDto → Transfer → Bool
matches_filters company dto t =
    t.company_id == company
    && unless_given (λ e. t.employee_id == e) dto.employee_id
    && unless_given (is_status t.status) dto.status
    && unless_given (is_kind t.kind) dto.kind

abbrev pub is_newer : Transfer → Transfer → Bool
is_newer a b = leb b.created_at a.created_at

-- `(r.fromStoreId && scope.includes(r.fromStoreId)) || scope.includes(r.toStoreId)`
abbrev pub touches_scope : List ℕ → Transfer → Bool
touches_scope scope t =
    elim t.from_store_id [ none ↦ false | some s ↦ includes scope s ]
    || includes scope t.to_store_id

abbrev pub in_list_scope : Option (List ℕ) → List Transfer → List Transfer
in_list_scope none rows = rows
in_list_scope (some scope) rows = select (touches_scope scope) rows

-- `new Date().toISOString().slice(0, 10)`, as a day.
abbrev pub day_of : ℕ → ℕ
day_of ms = ms / 86400000

-- `t.kind === 'permanent' || !t.startDate || t.startDate <= today`
abbrev pub starts_now : Transfer → ℕ → Bool
starts_now t today =
    is_kind t.kind permanent || elim t.start_date [ none ↦ true | some d ↦ leb d today ]

abbrev pub is_closed : Status → Bool
is_closed completed = true
is_closed cancelled = true
is_closed _ = false

module _ (r : Request) (company : ℕ) where
  abbrev scope : Option (List ℕ)
  scope = scoped_store_ids r.user

  abbrev user_id : Option ℕ
  user_id = current_user_id r.user

  unfoldable pub audit_transfer : ℕ → String → Action Db Done
  audit_transfer id action = modify λ d. record d {
    audit =
        record { company_id = company; actor_user_id = user_id; action = action; target_id = id }
        ∷ d.audit;
  }

  unfoldable pub assert_store_in_scope : Option ℕ → Action Db Done
  assert_store_in_scope store =
      throw_if (is_out_of_scope scope store) (forbidden "That store is outside your scope.")

  unfoldable pub list : ListTransfersDto → Action Db (List Transfer)
  list dto = gets λ d.
      in_list_scope scope
        (take 500 (sort_by is_newer (select (matches_filters company dto) d.transfers)))

  unfoldable pub get : ℕ → Action Db Transfer
  unfolding find_transfer
  get id = do or_throw (← find_transfer r company id) (not_found "Transfer not found.")

  unfoldable pub create : CreateTransferDto → Action Db (Option Transfer)
  unfolding find_employee insert_transfer assert_store_in_scope
  create dto = do
    employee ← find_employee r company dto.employee_id
    employee ← or_throw employee (not_found "Employee not found.")
    let from_store_id = or_else dto.from_store_id employee.primary_store_id
    throw_if (is_value dto.to_store_id from_store_id)
        (conflict "Destination store equals the current store.")
    assert_store_in_scope (some dto.to_store_id)
    insert_transfer r company λ id. record {
      id = id;
      company_id = company;
      employee_id = dto.employee_id;
      from_store_id = from_store_id;
      to_store_id = dto.to_store_id;
      kind = dto.kind;
      start_date = dto.start_date;
      end_date = dto.end_date;
      reason = dto.reason;
      status = requested;
      link_id = none;
      requested_by = user_id;
      approved_by = none;
      created_at = r.now;
    }

  unfoldable pub approve_permanent : ℕ → Transfer → Action Db (Option Transfer)
  unfolding set_primary_store update_transfer audit_transfer
  approve_permanent id t = do
    set_primary_store r company t.employee_id t.to_store_id
    done ←
        update_transfer r company id (λ t. record t {
          status = completed;
          approved_by = unless_undefined user_id t.approved_by;
        })
    audit_transfer id "approved_permanent"
    pure done

  unfoldable pub activate : ℕ → Transfer → Action Db (Option Transfer)
  unfolding add_link update_transfer audit_transfer
  activate id t = do
    link ← add_link r company t.employee_id t.to_store_id
    done ← update_transfer r company id (λ t. record t {
      status = active;
      link_id = some link;
      approved_by = unless_undefined user_id t.approved_by;
    })
    audit_transfer id "activated"
    pure done

  unfoldable pub approve_later : ℕ → Action Db (Option Transfer)
  unfolding update_transfer audit_transfer
  approve_later id = do
    done ←
        update_transfer r company id (λ t. record t {
          status = approved;
          approved_by = unless_undefined user_id t.approved_by;
        })
    audit_transfer id "approved"
    pure done

  unfoldable pub approve : ℕ → Action Db (Option Transfer)
  unfolding get assert_store_in_scope
  approve id = do
    t ← get id
    throw_if (not (is_status t.status requested)) (conflict "Transfer is not pending.")
    assert_store_in_scope (some t.to_store_id)
    if is_kind t.kind permanent
        then approve_permanent id t
        else if starts_now t (day_of r.now)
        then activate id t
        else approve_later id

  unfoldable pub reject : ℕ → Action Db (Option Transfer)
  unfolding get update_transfer
  reject id = do
    t ← get id
    throw_if (not (is_status t.status requested)) (conflict "Transfer is not pending.")
    update_transfer r company id
        (λ t. record t { status = rejected; approved_by = unless_undefined user_id t.approved_by })

  -- `if (t.linkId) await this.repo.removeLink(companyId, t.linkId)`
  unfoldable pub remove_link_of : Option ℕ → Action Db Done
  unfolding remove_link
  remove_link_of none = pure tt
  remove_link_of (some link) = remove_link r company link

  unfoldable pub cancel : ℕ → Action Db (Option Transfer)
  unfolding get remove_link_of update_transfer
  cancel id = do
    t ← get id
    throw_if (is_closed t.status) (conflict "Transfer is already closed.")
    if is_status t.status active then remove_link_of t.link_id else pure tt
    update_transfer r company id (λ t. record t { status = cancelled; link_id = none })

  unfoldable pub activate_due : List Transfer → ℕ → Action Db ℕ
  unfolding add_link update_transfer
  activate_due [] activated = pure activated
  activate_due (t ∷ due) activated = do
    link ← add_link r company t.employee_id t.to_store_id
    update_transfer r company t.id (λ t. record t { status = active; link_id = some link })
    activate_due due (activated + 1)

  unfoldable pub revert_due : List Transfer → ℕ → Action Db ℕ
  unfolding remove_link_of update_transfer
  revert_due [] reverted = pure reverted
  revert_due (t ∷ due) reverted = do
    remove_link_of t.link_id
    update_transfer r company t.id (λ t. record t { status = completed; link_id = none })
    revert_due due (reverted + 1)

  unfoldable pub run_scheduled_sweep : Action Db (ℕ × ℕ)
  unfolding due_to_activate due_to_revert activate_due revert_due
  run_scheduled_sweep = do
    let today = day_of r.now
    activated ← activate_due (← due_to_activate r company today) 0
    reverted ← revert_due (← due_to_revert r company today) 0
    pure (activated, reverted)
