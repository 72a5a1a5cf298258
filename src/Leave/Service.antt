-- ===== src/Leave/Service.antt =====
-- leave/leave.service.ts, handler by handler.
use mathlib.Core.Option.{get_or}
use vellora_backend.Prelude.{
  ℕ, ◌+◌, ◌-◌, not, ◌&&◌, ◌||◌, Option, none, some, String, List, [], ◌∷◌, ◌==◌, leb, if◌then◌else◌,
  take, sort_by, length, min,
}
use vellora_backend.Nest.{
  Action, Done, ok, bad_request, conflict, not_found, forbidden, pure, gets, modify, or_throw,
  throw_if, when, ◌>>=◌, ◌>>◌,
}
use vellora_backend.Database.{find, select}
use vellora_backend.Access.Principal.{Request, scoped_store_ids, current_user_id}
use vellora_backend.Leave.Model.{
  Status, requested, cancelled, StepStatus, LeaveType, LeaveRequest, LeaveBalance, Db, is_status,
  find_type, find_request, insert_request, update_request, holidays_in_range, blackouts_in_range,
  overlapping_requests, find_balance, upsert_balance, update_balance,
}
use vellora_backend.Leave.Calendar.{year_of}
use vellora_backend.Leave.Rules.{
  Change, negated, add_floor, CreateRequestDto, ListRequestsDto, SetBalanceDto, is_true, is_manager,
  build_chain, decide_step, charged_days, matches_filters, employee_in_scope, is_final, is_closed,
  plus,
}

module _ (r : Request) (company : ℕ) where
  abbrev user_id : Option ℕ
  user_id = current_user_id r.user

  unfoldable pub list_requests : ListRequestsDto → Action Db (List LeaveRequest)
  list_requests dto d =
      let scope : Option (List ℕ) = if is_true dto.mine then none else scoped_store_ids r.user in
      let rows = take 500 (
        sort_by (λ a b. leb b.created_at a.created_at)
          (select (matches_filters company dto) d.requests)) in
      (
        ok (elim scope [
          | none ↦ rows
          | some ids ↦ select (employee_in_scope company d.employees ids) rows
        ]),
        d,
      )

  unfoldable pub get_request : ℕ → Action Db LeaveRequest
  unfolding find_request
  get_request id = do or_throw (← find_request r company id) (not_found "Leave request not found.")

  unfoldable pub assert_can_approve : Action Db Done
  assert_can_approve =
      throw_if (not (is_manager r.user)) (forbidden "Only managers can approve leave.")

  -- The callers pass no change of `entitled`.
  unfoldable pub adjust_balance : ℕ → ℕ → ℕ → Change → Change → Action Db Done
  unfolding find_balance upsert_balance update_balance
  adjust_balance employee type year taken reserved = do
    existing ← find_balance r company employee type year
    elim existing [
      | none ↦
          upsert_balance r company employee type year 0 (add_floor 0 taken) (add_floor 0 reserved)
      | some b ↦
          update_balance r company b.id (add_floor b.taken taken) (add_floor b.pending reserved)
    ]

  unfoldable pub create_request : CreateRequestDto → Action Db LeaveRequest
  unfolding find_type holidays_in_range blackouts_in_range insert_request
  create_request dto = do
    type ← or_throw (← find_type r company dto.type_id) (not_found "Leave type not found.")
    holidays ← holidays_in_range r company dto.start_date dto.end_date
    blackouts ← blackouts_in_range r company dto.start_date dto.end_date
    throw_if (not (length blackouts == 0))
        (conflict "Requested dates fall within a blackout period.")
    let days : ℕ = charged_days dto holidays
    throw_if (leb days 0) (bad_request "Selected range contains no working days.")
    req ← insert_request r company λ id. record {
      id = id;
      company_id = company;
      employee_id = dto.employee_id;
      type_id = dto.type_id;
      start_date = dto.start_date;
      end_date = dto.end_date;
      half_day = is_true dto.half_day;
      days = days;
      reason = dto.reason;
      status = requested;
      approver_chain = build_chain type;
      current_step = 0;
      created_at = r.now;
    }
    adjust_balance dto.employee_id dto.type_id (year_of dto.start_date) (plus 0) (plus days)
    pure req

  unfoldable pub conflicts : ℕ → Action Db (List LeaveRequest)
  unfolding get_request overlapping_requests
  conflicts id = do
    req ← get_request id
    overlapping_requests r company req.start_date req.end_date id

  -- `if (final) { … }`, once the request is written.
  unfoldable pub finish_approval : LeaveRequest → Action Db Done
  finish_approval req = do
    adjust_balance req.employee_id req.type_id (year_of req.start_date) (plus req.days)
        (negated req.days)
    modify (λ d. record d {
      audit =
          record {
            company_id = company;
            actor_user_id = user_id;
            action = "leave.request.approved";
            target_id = req.id;
            days = req.days;
            type_id = req.type_id;
          }
          ∷ d.audit;
    })

  -- What `approve` writes at the request that it read.
  abbrev pub approve_write : LeaveRequest → Option String → LeaveRequest → LeaveRequest
  approve_write req note q = record q {
    approver_chain =
        decide_step StepStatus.approved user_id r.now note req.approver_chain req.current_step;
    current_step = req.current_step + 1;
    status = if is_final req then Status.approved else requested;
  }

  unfoldable pub approve : ℕ → Option String → Action Db (Option LeaveRequest)
  unfolding get_request assert_can_approve update_request
  approve id note = do
    req ← get_request id
    assert_can_approve
    throw_if (not (is_status req.status requested)) (conflict "Request is not pending approval.")
    updated ← update_request r company id (approve_write req note)
    when (is_final req) (finish_approval req)
    pure updated

  unfoldable pub reject : ℕ → Option String → Action Db (Option LeaveRequest)
  unfolding get_request assert_can_approve update_request
  reject id note = do
    req ← get_request id
    assert_can_approve
    throw_if (not (is_status req.status requested)) (conflict "Request is not pending approval.")
    adjust_balance req.employee_id req.type_id (year_of req.start_date) (plus 0) (negated req.days)
    update_request r company id λ q. record q {
      approver_chain =
          decide_step StepStatus.rejected user_id r.now note req.approver_chain req.current_step;
      status = Status.rejected;
    }

  unfoldable pub cancel : ℕ → Action Db (Option LeaveRequest)
  unfolding get_request update_request
  cancel id = do
    req ← get_request id
    throw_if (is_closed req.status) (conflict "Request is already closed.")
    adjust_balance req.employee_id req.type_id (year_of req.start_date)
        (if is_status req.status Status.approved then negated req.days else plus 0)
        (if is_status req.status requested then negated req.days else plus 0)
    update_request r company id (λ q. record q { status = cancelled })

  unfoldable pub set_balance : SetBalanceDto → Action Db Done
  unfolding upsert_balance
  set_balance dto = upsert_balance r company dto.employee_id dto.type_id dto.year dto.entitled 0 0

  -- One round of the loop of `runYearEnd`.
  abbrev pub next_entitled : List LeaveType → LeaveBalance → ℕ
  next_entitled types b = elim (find (λ t. t.id == b.type_id) types) [
    | none ↦ b.entitled + min (b.entitled - b.taken) 0
    | some t ↦
        get_or t.accrual_per_year b.entitled
        + min (b.entitled - b.taken) (get_or t.carryover_max_days 0)
  ]

  unfoldable pub roll : List LeaveType → ℕ → List LeaveBalance → ℕ → Action Db ℕ
  unfolding upsert_balance
  roll types from_year [] rolled = pure rolled
  roll types from_year (b ∷ bs) rolled = do
    upsert_balance r company b.employee_id b.type_id (from_year + 1) (next_entitled types b) 0 0
    roll types from_year bs (rolled + 1)

  -- The year filter of the query is left out for year 0, which is falsy.
  unfoldable pub run_year_end : ℕ → Action Db ℕ
  unfolding roll
  run_year_end from_year = do
    balances ← gets (λ d. take 1000 (
        select (λ b. b.company_id == company && (from_year == 0 || b.year == from_year))
          d.balances))
    types ← gets (λ d. select (λ t. t.company_id == company) d.types)
    roll types from_year balances 0
