-- ===== src/Access/Entitlements/Precedence.antt =====
-- Which of the override, the plan and the defaults decides a property, in
-- entitlements/entitlements.service.ts.
use vellora_backend.Prelude.{
  ℕ, Bool, Option, none, some, String, List, [], ◌∷◌, ◌==◌, str_eq, if◌then◌else◌, ◌≡◌, ◌⊎◌,
}
use mathlib.Core.Option.{get_or}
use vellora_backend.Database.{find}
use vellora_backend.Access.Entitlements.{
  Cap, Plan, EntitlementOverride, Db, Subscription, trialing, active, past_due, canceled,
}

module _ {ℓ} {V : Type ℓ} where
  -- The last property of a JSON object with a name, since a later one replaces an earlier one.
  abbrev pub last : String → List (String × V) → Option V
  last k [] = none
  last k ((j, v) ∷ m) =
      let rest = last k m in
      elim rest [ some w ↦ some w | none ↦ if str_eq j k then some v else none ]

  -- The first answer of two.
  abbrev pub or_else : Option V → Option V → Option V
  or_else none o = o
  or_else (some v) o = some v

abbrev pub plan_entitlements : Option Plan → List (String × Bool)
plan_entitlements none = []
plan_entitlements (some p) = get_or p.entitlements_json []

abbrev pub plan_limits : Option Plan → List (String × Cap)
plan_limits none = []
plan_limits (some p) = get_or p.limits_json []

abbrev pub override_entitlements : Option EntitlementOverride → List (String × Bool)
override_entitlements none = []
override_entitlements (some o) = get_or o.entitlements []

abbrev pub override_limits : Option EntitlementOverride → List (String × Cap)
override_limits none = []
override_limits (some o) = get_or o.limits []

-- The plan that a subscription of the company pays for: none without a subscription, none once it is
-- canceled, and else, also while a payment is late, the plan that it names.
pub data IsPaidPlan (company : ℕ) (d : Db) : Option Plan → Type 0 where
  unsubscribed :
      find (λ s. s.company_id == company) d.subscriptions ≡ none → IsPaidPlan company d none
  ended :
      (s : Subscription)
      → find (λ s. s.company_id == company) d.subscriptions ≡ some s
      → s.status ≡ canceled
      → IsPaidPlan company d none
  running :
      (s : Subscription)
      → find (λ s. s.company_id == company) d.subscriptions ≡ some s
      → (s.status ≡ trialing) ⊎ ((s.status ≡ active) ⊎ (s.status ≡ past_due))
      → IsPaidPlan company d (find (λ p. p.id == s.plan_id) d.plans)
