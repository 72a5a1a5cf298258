-- ===== src/Leave/Ledger/Handlers.antt =====
-- Each handler of leave/leave.service.ts keeps the ledger.
use vellora_backend.Prelude.{
  ℕ, ◌≡◌, refl, sym, true, false, not, Option, none, some, ◌∷◌, String, arith, if◌then◌else◌,
  Bool-cases, Option-cases, inl, inr, ap,
}
use mathlib.Core.Path.{subst}
use vellora_backend.Database.{find, update}
use vellora_backend.Access.Principal.{Request, current_user_id}
use vellora_backend.Leave.Model.{
  LeaveRequest, Db, Status, StepStatus, requested, cancelled, is_status, request_by_id,
  balance_by_id,
}
use vellora_backend.Leave.Calendar.{year_of}
use vellora_backend.Leave.Service.{approve, reject, cancel, approve_write, finish_approval}
use vellora_backend.Leave.Rules.{
  Change, plus, negated, is_manager, is_final, is_closed, decide_step,
}
use vellora_backend.Leave.Balances.{
  NoForeign, adjust_lem, same_key, moved, balance_at, balance_at-same,
}
use vellora_backend.Leave.Ledger.{IsLedger, add_floor-negated, decide-IsLedger}

moved_zero : (p : ℕ × ℕ) → p ≡ moved (plus 0) (plus 0) p
moved_zero (a, b) = ground arith

module _ (r : Request) (company id : ℕ) where
  -- The balance of the request can be written: its row is the tenant's own, if there is one, and the
  -- id that the database would draw for a new row is new.
  pub record CanAdjust (d : Db) : Type 0 where
    pub own :
        (u : LeaveRequest)
        → find (request_by_id company id) d.requests ≡ some u
        → NoForeign company u.employee_id u.type_id (year_of u.start_date) d.balances
    pub fresh : find (balance_by_id company (r.uuid d.drawn)) d.balances ≡ none

  is_pending :
      (u : LeaveRequest) → not (is_status u.status requested) ≡ false → u.status ≡ requested
  is_pending u h = ground arith

  reject_done :
      (note : Option String) (u : LeaveRequest) (d : Db)
      → IsLedger company d
      → CanAdjust d
      → find (request_by_id company id) d.requests ≡ some u
      → is_manager r.user ≡ true
      → u.status ≡ requested
      → IsLedger company (reject r company id note d).1
  unfolding reject
  reject_done note u d ledger can found manager pending =
      let adj =
        adjust_lem company r u.employee_id u.type_id (year_of u.start_date) (plus 0)
          (negated u.days) d (can.own u found) ledger.balance_keys can.fresh in
      let write : LeaveRequest → LeaveRequest = λ (q : LeaveRequest). record q {
        approver_chain =
            decide_step StepStatus.rejected (current_user_id r.user) r.now note u.approver_chain
              u.current_step;
        status = Status.rejected;
      } in
      let d2 : Db = record adj.0 {
        requests = update (request_by_id company id) write adj.0.requests;
      } in
      let ran : (reject r company id note d).1 ≡ d2 =
        ground (arith, found, manager, pending, adj.1.0) in
      subst (IsLedger company) (sym ran) (
        decide-IsLedger company d d2 id u write (plus 0) (negated u.days) ledger found (λ w i. refl)
          refl (λ e t y. refl) (λ a h. ground (arith, pending))
          (λ a h. ground (arith, pending, add_floor-negated a u.days))
          (ap (update (request_by_id company id) write) adj.1.1) adj.1.3 adj.1.2)

  cancel_done :
      (u : LeaveRequest) (d : Db)
      → IsLedger company d
      → CanAdjust d
      → find (request_by_id company id) d.requests ≡ some u
      → is_closed u.status ≡ false
      → IsLedger company (cancel r company id d).1
  unfolding cancel
  cancel_done u d ledger can found live =
      let dt : Change = if is_status u.status Status.approved then negated u.days else plus 0 in
      let dp : Change = if is_status u.status requested then negated u.days else plus 0 in
      let adj =
        adjust_lem company r u.employee_id u.type_id (year_of u.start_date) dt dp d
          (can.own u found) ledger.balance_keys can.fresh in
      let write : LeaveRequest → LeaveRequest =
        λ (q : LeaveRequest). record q { status = cancelled } in
      let d2 : Db = record adj.0 {
        requests = update (request_by_id company id) write adj.0.requests;
      } in
      let ran : (cancel r company id d).1 ≡ d2 = ground (arith, found, live, adj.1.0) in
      subst (IsLedger company) (sym ran) (
        decide-IsLedger company d d2 id u write dt dp ledger found (λ w i. refl) refl
          (λ e t y. refl) (λ a h. ground (arith, add_floor-negated a u.days))
          (λ a h. ground (arith, add_floor-negated a u.days))
          (ap (update (request_by_id company id) write) adj.1.1) adj.1.3 adj.1.2)

  approve_last :
      (note : Option String) (u : LeaveRequest) (d : Db)
      → IsLedger company d
      → CanAdjust d
      → find (request_by_id company id) d.requests ≡ some u
      → is_manager r.user ≡ true
      → u.status ≡ requested
      → is_final u ≡ true
      → IsLedger company (approve r company id note d).1
  unfolding approve finish_approval
  approve_last note u d ledger can found manager pending final =
      let write : LeaveRequest → LeaveRequest = approve_write r company u note in
      let d1 : Db = record d { requests = update (request_by_id company id) write d.requests } in
      let adj =
        adjust_lem company r u.employee_id u.type_id (year_of u.start_date) (plus u.days)
          (negated u.days) d1 (can.own u found) ledger.balance_keys can.fresh in
      let d2 : Db = record adj.0 {
        audit =
            record {
              company_id = company;
              actor_user_id = current_user_id r.user;
              action = "leave.request.approved";
              target_id = u.id;
              days = u.days;
              type_id = u.type_id;
            }
            ∷ adj.0.audit;
      } in
      let ran : (approve r company id note d).1 ≡ d2 =
        ground (arith, found, manager, pending, final, adj.1.0) in
      subst (IsLedger company) (sym ran) (
        decide-IsLedger company d d2 id u write (plus u.days) (negated u.days) ledger found
          (λ w i. refl) refl (λ e t y. refl) (λ a h. ground (arith, pending, final))
          (λ a h. ground (arith, pending, final, add_floor-negated a u.days)) adj.1.1 adj.1.3
          adj.1.2)

  approve_step :
      (note : Option String) (u : LeaveRequest) (d : Db)
      → IsLedger company d
      → find (request_by_id company id) d.requests ≡ some u
      → is_manager r.user ≡ true
      → u.status ≡ requested
      → is_final u ≡ false
      → IsLedger company (approve r company id note d).1
  unfolding approve
  approve_step note u d ledger found manager pending more =
      let write : LeaveRequest → LeaveRequest = approve_write r company u note in
      let d1 : Db = record d { requests = update (request_by_id company id) write d.requests } in
      let ran : (approve r company id note d).1 ≡ d1 =
        ground (arith, found, manager, pending, more) in
      subst (IsLedger company) (sym ran) (
        decide-IsLedger company d d1 id u write (plus 0) (plus 0) ledger found (λ w i. refl) refl
          (λ e t y. refl) (λ a h. ground (arith, pending, more))
          (λ a h. ground (arith, pending, more)) refl ledger.balance_keys (λ e t y. unmoved e t y))
    where
      unmoved :
          (e t y : ℕ)
          → balance_at company e t y d.balances ≡ (
              if same_key u.employee_id u.type_id (year_of u.start_date) e t y
              then moved
                  (plus 0)
                  (plus 0)
                  (balance_at company u.employee_id u.type_id (year_of u.start_date) d.balances)
              else balance_at company e t y d.balances)
      unmoved e t y =
          elim (Bool-cases (same_key u.employee_id u.type_id (year_of u.start_date) e t y)) [
            | inl same ↦
                rw
                  (
                    same,
                    balance_at-same company u.employee_id u.type_id (year_of u.start_date) e t y
                        d.balances same,
                  )
                  (moved_zero (balance_at company e t y d.balances))
            | inr apart ↦ rw apart
          ]

  -- Every outcome of `approve` keeps the ledger, if the id that the database draws is new and no other
  -- tenant has a balance under the request's key.
  pub approve-IsLedger :
      (note : Option String) (d : Db)
      → IsLedger company d
      → CanAdjust d
      → IsLedger company (approve r company id note d).1
  unfolding approve
  approve-IsLedger note d ledger can =
      elim (Option-cases (find (request_by_id company id) d.requests)) [
        | inl missing ↦ unchanged (ground (arith, missing))
        | inr (u, found) ↦ elim (Bool-cases (is_manager r.user)) [
          | inr employee ↦ unchanged (ground (arith, found, employee))
          | inl manager ↦ elim (Bool-cases (not (is_status u.status requested))) [
            | inl decided ↦ unchanged (ground (arith, found, manager, decided))
            | inr waits ↦ elim (Bool-cases (is_final u)) [
              | inl final ↦
                  approve_last note u d ledger can found manager (is_pending u waits) final
              | inr more ↦ approve_step note u d ledger found manager (is_pending u waits) more
            ]
          ]
        ]
      ]
    where
      unchanged :
          (approve r company id note d).1 ≡ d → IsLedger company (approve r company id note d).1
      unchanged e = subst (IsLedger company) (sym e) ledger

  -- Every outcome of `reject` keeps the ledger, if the id that the database draws is new and no other
  -- tenant has a balance under the request's key.
  pub reject-IsLedger :
      (note : Option String) (d : Db)
      → IsLedger company d
      → CanAdjust d
      → IsLedger company (reject r company id note d).1
  unfolding reject
  reject-IsLedger note d ledger can =
      elim (Option-cases (find (request_by_id company id) d.requests)) [
        | inl missing ↦ unchanged (ground (arith, missing))
        | inr (u, found) ↦ elim (Bool-cases (is_manager r.user)) [
          | inr employee ↦ unchanged (ground (arith, found, employee))
          | inl manager ↦ elim (Bool-cases (not (is_status u.status requested))) [
            | inl decided ↦ unchanged (ground (arith, found, manager, decided))
            | inr waits ↦ reject_done note u d ledger can found manager (is_pending u waits)
          ]
        ]
      ]
    where
      unchanged :
          (reject r company id note d).1 ≡ d → IsLedger company (reject r company id note d).1
      unchanged e = subst (IsLedger company) (sym e) ledger

  -- Every outcome of `cancel` keeps the ledger, if the id that the database draws is new and no other
  -- tenant has a balance under the request's key.
  pub cancel-IsLedger :
      (d : Db) → IsLedger company d → CanAdjust d → IsLedger company (cancel r company id d).1
  unfolding cancel
  cancel-IsLedger d ledger can = elim (Option-cases (find (request_by_id company id) d.requests)) [
    | inl missing ↦ unchanged (ground (arith, missing))
    | inr (u, found) ↦ elim (Bool-cases (is_closed u.status)) [
      | inl closed ↦ unchanged (ground (arith, found, closed))
      | inr live ↦ cancel_done u d ledger can found live
    ]
  ]
    where
      unchanged : (cancel r company id d).1 ≡ d → IsLedger company (cancel r company id d).1
      unchanged e = subst (IsLedger company) (sym e) ledger
