-- ===== src/Access/Limits.antt =====
-- The caps that billing/billing.service.ts enforces before a row is added, with the counts of
-- billing/billing.repository.ts.
use vellora_backend.Prelude.{ℕ, ◌+◌, ltb, Bool, ◌&&◌, none, some, String, List, ◌==◌, if◌then◌else◌}
use vellora_backend.Nest.{Result, ok, err, forbidden, Done}
use vellora_backend.Database.{count_where}
use vellora_backend.Access.Entitlements as Entitlements
use vellora_backend.Access.Entitlements.{Cap, unlimited, at_most, property, get_effective}

pub data Metric : Type 0 where
  employees stores : Metric

-- A membership, and whether its status is `active`.
pub record Membership : Type 0 where
  pub company_id : ℕ
  pub active : Bool

-- The plans and the overrides, and the rows that are counted; of an employee and of a store the
-- company alone.
pub record Db : Type 0 where
  pub entitlements : Entitlements.Db
  pub employee_companies : List ℕ
  pub store_companies : List ℕ
  pub memberships : List Membership

abbrev pub metric_key : Metric → String
metric_key employees = "employees"
metric_key stores = "stores"

abbrev pub count_employees : ℕ → Db → ℕ
count_employees company d = count_where (λ c. c == company) d.employee_companies

abbrev pub count_stores : ℕ → Db → ℕ
count_stores company d = count_where (λ c. c == company) d.store_companies

abbrev pub count_active_memberships : ℕ → Db → ℕ
count_active_memberships company d =
    count_where (λ m. m.company_id == company && m.active) d.memberships

abbrev pub count_of : Metric → ℕ → Db → ℕ
count_of employees company d = count_employees company d
count_of stores company d = count_stores company d

-- `limits[metric] ?? -1`
abbrev pub cap_of : Metric → ℕ → Db → Cap
cap_of metric company d =
    elim (property (metric_key metric) (get_effective company d.entitlements).limits) [
      | none ↦ unlimited
      | some cap ↦ cap
    ]

unfoldable pub assert_within_limit : ℕ → Metric → ℕ → Db → Result Done
assert_within_limit company metric delta d = elim (cap_of metric company d) [
  | unlimited ↦ ok tt
  | at_most limit ↦
      if ltb limit (count_of metric company d + delta)
      then err (forbidden "Plan limit reached.")
      else ok tt
]

unfoldable pub assert_active_user_limit : ℕ → ℕ → Db → Result Done
assert_active_user_limit company delta d = elim (cap_of employees company d) [
  | unlimited ↦ ok tt
  | at_most limit ↦
      if ltb limit (count_active_memberships company d + delta)
      then err (forbidden "Plan seat limit reached.")
      else ok tt
]
