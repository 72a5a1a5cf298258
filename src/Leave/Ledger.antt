-- ===== src/Leave/Ledger.antt =====
-- The balances against the requests: what is taken and what is pending under a key is the sum of
-- the days of the approved and of the requested requests.
pub mod Handlers
pub mod Creation
use vellora_backend.Prelude.{
  ℕ, suc, ◌+◌, ◌-◌, ◌≤◌, ◌≡◌, refl, sym, Bool, true, false, ◌&&◌, Option, none, some, List, [], ◌∷◌,
  arith, ◌==◌, if◌then◌else◌, Bool-cases, inl, inr, ◌∙◌, ap, zero,
}
use mathlib.Core.Path.{ap₂}
use vellora_backend.Database.{find, update}
use vellora_backend.Database.Laws.{find-holds}
use vellora_backend.Database.Totals.{total, IsUnique, IsUnique-update, total-update, total-find-le}
use vellora_backend.Leave.Model.{
  LeaveRequest, LeaveBalance, Db, Status, requested, is_status, request_by_id,
}
use vellora_backend.Leave.Calendar.{year_of}
use vellora_backend.Leave.Rules.{Change, plus, minus_suc, add_floor, negated}
use vellora_backend.Leave.Balances.{IsKeyed, balance_at, same_key, moved, balance_at-same}

-- The days that a request counts for among the requests of a status.
abbrev pub weight : Status → LeaveRequest → ℕ
weight s q = if is_status q.status s then q.days else 0

abbrev pub is_charged_to : ℕ → ℕ → ℕ → ℕ → LeaveRequest → Bool
is_charged_to company e t y q =
    q.company_id == company && same_key q.employee_id q.type_id (year_of q.start_date) e t y

abbrev pub charge : ℕ → Status → ℕ → ℕ → ℕ → LeaveRequest → ℕ
charge company s e t y q = if is_charged_to company e t y q then weight s q else 0

pub record IsLedger (company : ℕ) (d : Db) : Type 0 where
  pub balance_keys : IsKeyed company d.balances
  pub request_keys : (i : ℕ) → IsUnique (request_by_id company i) d.requests
  pub agrees :
      (e t y : ℕ)
      → balance_at company e t y d.balances ≡ (
        total (charge company Status.approved e t y) d.requests,
        total (charge company requested e t y) d.requests,
      )

pub add_floor-negated : (a n : ℕ) → add_floor a (negated n) ≡ a - n
add_floor-negated a zero = omega arith
add_floor-negated a (suc n) = refl

module _ (company : ℕ) where
  pub charge_own :
      (s : Status) (e t y : ℕ) (q : LeaveRequest)
      → q.company_id ≡ company
      → charge company s e t y q
        ≡ (if same_key q.employee_id q.type_id (year_of q.start_date) e t y then weight s q else 0)
  charge_own s e t y q own = ground arith

  -- A handler that writes a status at one request, and moves the balance of that request by what the
  -- request counted for before and counts for after, keeps the ledger.
  module _ (d d' : Db) (id : ℕ) (u : LeaveRequest) (f : LeaveRequest → LeaveRequest)
      (dt dp : Change) (ledger : IsLedger company d)
      (found : find (request_by_id company id) d.requests ≡ some u)
      (keeps : (w : LeaveRequest)
        → (i : ℕ) → request_by_id company i (f w) ≡ request_by_id company i w)
      (own_after : (f u).company_id ≡ u.company_id)
      (key_after : (e t y : ℕ)
        → same_key (f u).employee_id (f u).type_id (year_of (f u).start_date) e t y
          ≡ same_key u.employee_id u.type_id (year_of u.start_date) e t y) where
    own : u.company_id ≡ company
    own = id_own u (find-holds (request_by_id company id) d.requests u found)
      where
        id_own : (u : LeaveRequest) → request_by_id company id u ≡ true → u.company_id ≡ company
        id_own u h = ground arith

    sums :
        (s : Status) (e t y : ℕ)
        → total (charge company s e t y) (update (request_by_id company id) f d.requests)
            + charge company s e t y u
          ≡ total (charge company s e t y) d.requests + charge company s e t y (f u)
    sums s e t y =
        total-update (charge company s e t y) (request_by_id company id) f d.requests u
          (ledger.request_keys id) found

    amount :
        (s : Status) (c : Change) (e t y : ℕ)
        → same_key u.employee_id u.type_id (year_of u.start_date) e t y ≡ true
        → ((a : ℕ) → weight s u ≤ a → add_floor a c + weight s u ≡ a + weight s (f u))
        → add_floor (total (charge company s e t y) d.requests) c
          ≡ total (charge company s e t y) (update (request_by_id company id) f d.requests)
    amount s c e t y key moves =
        let before : charge company s e t y u ≡ weight s u =
          charge_own s e t y u own ∙ rw key refl in
        let after : charge company s e t y (f u) ≡ weight s (f u) =
          charge_own s e t y (f u) (own_after ∙ own) ∙ rw (key_after e t y, key) refl in
        let least : weight s u ≤ total (charge company s e t y) d.requests =
          rw (← before) (
            total-find-le (charge company s e t y) (request_by_id company id) d.requests u found) in
        omega (
          arith,
          sums s e t y,
          before,
          after,
          moves (total (charge company s e t y) d.requests) least,
        )

    untouched :
        (s : Status) (e t y : ℕ)
        → same_key u.employee_id u.type_id (year_of u.start_date) e t y ≡ false
        → total (charge company s e t y) d.requests
          ≡ total (charge company s e t y) (update (request_by_id company id) f d.requests)
    untouched s e t y key =
        let before : charge company s e t y u ≡ 0 = charge_own s e t y u own ∙ rw key refl in
        let after : charge company s e t y (f u) ≡ 0 =
          charge_own s e t y (f u) (own_after ∙ own) ∙ rw (key_after e t y, key) refl in
        omega (arith, sums s e t y, before, after)

    pub decide-IsLedger :
        ((a : ℕ)
          → weight Status.approved u ≤ a
          → add_floor a dt + weight Status.approved u ≡ a + weight Status.approved (f u))
        → ((a : ℕ)
            → weight requested u ≤ a
            → add_floor a dp + weight requested u ≡ a + weight requested (f u))
        → d'.requests ≡ update (request_by_id company id) f d.requests
        → IsKeyed company d'.balances
        → ((e t y : ℕ)
            → balance_at company e t y d'.balances ≡ (
                if same_key u.employee_id u.type_id (year_of u.start_date) e t y
                then moved dt dp
                    (balance_at company u.employee_id u.type_id (year_of u.start_date) d.balances)
                else balance_at company e t y d.balances))
        → IsLedger company d'
    decide-IsLedger taken reserved wrote keyed adjusted = record {
      balance_keys = keyed;
      request_keys = λ i. rw wrote (
          IsUnique-update (request_by_id company i) (request_by_id company id) f d.requests
            (λ w. keeps w i) (ledger.request_keys i));
      agrees = λ e t y. rw wrote (adjusted e t y ∙ new_sums e t y);
    }
      where
        new_sums :
            (e t y : ℕ)
            → (if same_key u.employee_id u.type_id (year_of u.start_date) e t y
                then moved dt dp
                    (balance_at company u.employee_id u.type_id (year_of u.start_date) d.balances)
                else balance_at company e t y d.balances)
              ≡ (
                total
                    (charge company Status.approved e t y)
                    (update (request_by_id company id) f d.requests),
                total
                    (charge company requested e t y)
                    (update (request_by_id company id) f d.requests),
              )
        new_sums e t y =
            elim (Bool-cases (same_key u.employee_id u.type_id (year_of u.start_date) e t y)) [
              | inl same ↦
                  rw
                    (
                      same,
                      balance_at-same company u.employee_id u.type_id (year_of u.start_date) e t y
                          d.balances same,
                      ledger.agrees e t y,
                    )
                    (ap₂ (λ a b. (a, b)) (amount Status.approved dt e t y same taken)
                      (amount requested dp e t y same reserved))
              | inr apart ↦
                  rw (apart, ledger.agrees e t y)
                    (ap₂ (λ a b. (a, b)) (untouched Status.approved e t y apart)
                      (untouched requested e t y apart))
            ]
