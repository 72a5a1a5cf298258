-- ===== src/Leave/Ledger/Creation.antt =====
-- `createRequest` of leave/leave.service.ts keeps the ledger.
use vellora_backend.Prelude.{
  ℕ, suc, ◌+◌, ◌≡◌, refl, sym, true, false, none, some, ◌∷◌, arith, ◌==◌, leb, if◌then◌else◌,
  Bool-cases, Option-cases, inl, inr, ◌∙◌, length,
}
use mathlib.Core.Path.{subst, ap₂}
use vellora_backend.Database.{find, select}
use vellora_backend.Database.Totals.{total, IsUnique}
use vellora_backend.Access.Principal.{Request}
use vellora_backend.Leave.Model.{
  LeaveRequest, LeaveType, Db, Status, requested, request_by_id, balance_by_id, type_by_id,
  blackout_in_range, holiday_in_range,
}
use vellora_backend.Leave.Calendar.{year_of}
use vellora_backend.Leave.Service.{create_request}
use vellora_backend.Leave.Rules.{plus, CreateRequestDto, charged_days, is_true, build_chain}
use vellora_backend.Leave.Balances.{
  NoForeign, adjust_lem, same_key, moved, balance_at, balance_at-same,
}
use vellora_backend.Leave.Ledger.{IsLedger, charge, weight, charge_own}

module _ (r : Request) (company : ℕ) (dto : CreateRequestDto) where
  -- The ids that the database draws for the request and its balance are new, and the balance that
  -- the request will draw on is the tenant's own, if there is one.
  pub record CanCreate (d : Db) : Type 0 where
    pub own : NoForeign company dto.employee_id dto.type_id (year_of dto.start_date) d.balances
    pub fresh_request : find (request_by_id company (r.uuid d.drawn)) d.requests ≡ none
    pub fresh_balance : find (balance_by_id company (r.uuid (suc d.drawn))) d.balances ≡ none

  abbrev pub new_request : LeaveType → Db → LeaveRequest
  new_request type d = record {
    id = r.uuid d.drawn;
    company_id = company;
    employee_id = dto.employee_id;
    type_id = dto.type_id;
    start_date = dto.start_date;
    end_date = dto.end_date;
    half_day = is_true dto.half_day;
    days =
        charged_days dto (select (holiday_in_range company dto.start_date dto.end_date) d.holidays);
    reason = dto.reason;
    status = requested;
    approver_chain = build_chain type;
    current_step = 0;
    created_at = r.now;
  }

  cons-IsLedger :
      (q : LeaveRequest) (d d' : Db)
      → IsLedger company d
      → q.company_id ≡ company
      → q.status ≡ requested
      → find (request_by_id company q.id) d.requests ≡ none
      → d'.requests ≡ q ∷ d.requests
      → ((e t y : ℕ)
          → balance_at company e t y d'.balances ≡ (
              if same_key q.employee_id q.type_id (year_of q.start_date) e t y
              then moved
                  (plus 0)
                  (plus q.days)
                  (balance_at company q.employee_id q.type_id (year_of q.start_date) d.balances)
              else balance_at company e t y d.balances))
      → ((i : ℕ) → IsUnique (balance_by_id company i) d'.balances)
      → IsLedger company d'
  cons-IsLedger q d d' ledger own pending fresh wrote adjusted keyed = record {
    balance_keys = keyed;
    request_keys = λ i. rw wrote (λ h. rw (← id_eq q i h) fresh, ledger.request_keys i);
    agrees = λ e t y. rw wrote (adjusted e t y ∙ new_sums e t y);
  }
    where
      id_eq : (q : LeaveRequest) (i : ℕ) → request_by_id company i q ≡ true → q.id ≡ i
      id_eq q i h = ground arith

      charged :
          (s : Status) (e t y : ℕ)
          → charge company s e t y q ≡ (
              if same_key q.employee_id q.type_id (year_of q.start_date) e t y
              then weight s q
              else 0)
      charged s e t y = charge_own company s e t y q own

      new_sums :
          (e t y : ℕ)
          → (if same_key q.employee_id q.type_id (year_of q.start_date) e t y
              then moved
                  (plus 0)
                  (plus q.days)
                  (balance_at company q.employee_id q.type_id (year_of q.start_date) d.balances)
              else balance_at company e t y d.balances)
            ≡ (
              charge company Status.approved e t y q
                  + total (charge company Status.approved e t y) d.requests,
              charge company requested e t y q + total (charge company requested e t y) d.requests,
            )
      new_sums e t y =
          elim (Bool-cases (same_key q.employee_id q.type_id (year_of q.start_date) e t y)) [
            | inl same ↦
                rw
                  (
                    charged Status.approved e t y,
                    charged requested e t y,
                    same,
                    balance_at-same company q.employee_id q.type_id (year_of q.start_date) e t y
                        d.balances same,
                    ledger.agrees e t y,
                    pending,
                  )
                  (ap₂ (λ a b. (a, b)) (omega arith) (omega arith))
            | inr apart ↦
                rw
                  (
                    charged Status.approved e t y,
                    charged requested e t y,
                    apart,
                    ledger.agrees e t y,
                  )
                  (ap₂ (λ a b. (a, b)) (omega arith) (omega arith))
          ]

  created :
      (type : LeaveType) (d : Db)
      → IsLedger company d
      → CanCreate d
      → find (type_by_id company dto.type_id) d.types ≡ some type
      → (length (select (blackout_in_range company dto.start_date dto.end_date) d.blackouts) == 0)
        ≡ true
      → leb (new_request type d).days 0 ≡ false
      → IsLedger company (create_request r company dto d).1
  unfolding create_request
  created type d ledger can known open_dates working =
      let q : LeaveRequest = new_request type d in
      let d1 : Db = record d { requests = q ∷ d.requests; drawn = suc d.drawn } in
      let adj =
        adjust_lem company r dto.employee_id dto.type_id (year_of dto.start_date) (plus 0)
          (plus q.days) d1 can.own ledger.balance_keys can.fresh_balance in
      let ran : (create_request r company dto d).1 ≡ adj.0 =
        ground (arith, known, open_dates, working, adj.1.0) in
      subst (IsLedger company) (sym ran)
        (cons-IsLedger q d adj.0 ledger refl refl can.fresh_request adj.1.1 adj.1.2 adj.1.3)

  -- Every outcome of `createRequest` keeps the ledger, if the ids that the database draws are new and no
  -- other tenant has a balance under the request's key.
  pub create_request-IsLedger :
      (d : Db)
      → IsLedger company d
      → CanCreate d
      → IsLedger company (create_request r company dto d).1
  unfolding create_request
  create_request-IsLedger d ledger can =
      elim (Option-cases (find (type_by_id company dto.type_id) d.types)) [
        | inl unknown ↦ unchanged (ground (arith, unknown))
        | inr (type, known) ↦
            elim (Bool-cases (
              length (select (blackout_in_range company dto.start_date dto.end_date) d.blackouts)
              == 0)) [
                | inr blocked ↦ unchanged (ground (arith, known, blocked))
                | inl free ↦ elim (Bool-cases (leb (new_request type d).days 0)) [
                  | inl idle ↦ unchanged (ground (arith, known, free, idle))
                  | inr working ↦ created type d ledger can known free working
                ]
              ]
      ]
    where
      unchanged :
          (create_request r company dto d).1 ≡ d
          → IsLedger company (create_request r company dto d).1
      unchanged e = subst (IsLedger company) (sym e) ledger
