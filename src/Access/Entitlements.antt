-- ===== src/Access/Entitlements.antt =====
-- entitlements/entitlements.service.ts and entitlements/plan.guard.ts. A JSON object is an association
-- list of its properties, and `none` a column that is null.
pub mod Precedence
use vellora_backend.Prelude.{
  ℕ, Bool, true, false, not, Option, none, some, String, List, [], ◌∷◌, ◌==◌, str_eq, str_eq_iff,
  if◌then◌else◌, arith, ◌≡◌, refl, Option-cases, Bool-cases, inl, inr,
}
use mathlib.Core.Option.{get_or}
use vellora_backend.Nest.{Result, ok, err, forbidden}
use vellora_backend.Database.{find}
use vellora_backend.Access.Principal.{AuthenticatedUser}
use vellora_backend.Access.Guards.{company_of}

module _ {ℓ} {V : Type ℓ} where
  abbrev pub property : String → List (String × V) → Option V
  property k [] = none
  property k ((j, v) ∷ m) = let rest = property k m in if str_eq j k then some v else rest

  abbrev pub assign_one : String → V → List (String × V) → List (String × V)
  assign_one k v [] = (k, v) ∷ []
  assign_one k v ((j, w) ∷ m) =
      let rest = assign_one k v m in if str_eq j k then (j, v) ∷ m else (j, w) ∷ rest

  -- `Object.assign(target, source)`
  abbrev pub assign : List (String × V) → List (String × V) → List (String × V)
  assign target [] = target
  assign target ((k, v) ∷ source) = assign (assign_one k v target) source

-- A limit may be -1, which means that there is none.
pub data Cap : Type 0 where
  unlimited : Cap
  at_most : ℕ → Cap

abbrev pub default_limits : List (String × Cap)
default_limits =
    ("employees", at_most 10)
    ∷ ("stores", at_most 1)
    ∷ ("devices", at_most 2)
    ∷ ("storage_gb", at_most 1)
    ∷ ("ai_calls", at_most 0)
    ∷ []

abbrev pub default_entitlements : List (String × Bool)
default_entitlements =
    ("stores", true)
    ∷ ("employees", true)
    ∷ ("scheduling", true)
    ∷ ("attendance", true)
    ∷ ("leave", true)
    ∷ ("documents", true)
    ∷ ("messaging", true)
    ∷ ("store.finances", false)
    ∷ ("employee.advanced", true)
    ∷ ("scheduling.suggestions", true)
    ∷ ("attendance.advanced", true)
    ∷ ("leave.advanced", true)
    ∷ ("onboarding", true)
    ∷ ("transfers", true)
    ∷ ("recruiting", true)
    ∷ ("reports", true)
    ∷ ("analytics", false)
    ∷ ("permissions.overrides", false)
    ∷ ("group.policies", false)
    ∷ []

pub data SubscriptionStatus : Type 0 where
  trialing active past_due canceled : SubscriptionStatus

pub record Subscription : Type 0 where
  pub company_id : ℕ
  pub plan_id : ℕ
  pub status : SubscriptionStatus

pub record Plan : Type 0 where
  pub id : ℕ
  pub key : String
  pub name : String
  pub entitlements_json : Option (List (String × Bool))
  pub limits_json : Option (List (String × Cap))

pub record EntitlementOverride : Type 0 where
  pub company_id : ℕ
  pub entitlements : Option (List (String × Bool))
  pub limits : Option (List (String × Cap))

pub record Db : Type 0 where
  pub subscriptions : List Subscription
  pub plans : List Plan
  pub overrides : List EntitlementOverride

pub record EffectiveAccess : Type 0 where
  pub plan_key : String
  pub plan_name : String
  pub entitlements : List (String × Bool)
  pub limits : List (String × Cap)

abbrev pub free_access : EffectiveAccess
free_access = record {
  plan_key = "free";
  plan_name = "Free";
  entitlements = default_entitlements;
  limits = default_limits;
}

abbrev pub is_canceled : SubscriptionStatus → Bool
is_canceled canceled = true
is_canceled _ = false

-- The plan of a subscription that is not canceled.
abbrev pub plan_of : ℕ → Db → Option Plan
plan_of company d = elim (find (λ s. s.company_id == company) d.subscriptions) [
  | none ↦ none
  | some s ↦ if is_canceled s.status then none else find (λ p. p.id == s.plan_id) d.plans
]

abbrev pub with_plan : EffectiveAccess → Option Plan → EffectiveAccess
with_plan a none = a
with_plan a (some p) = record {
  plan_key = p.key;
  plan_name = p.name;
  entitlements = assign a.entitlements (get_or p.entitlements_json []);
  limits = assign a.limits (get_or p.limits_json []);
}

abbrev pub with_override : EffectiveAccess → Option EntitlementOverride → EffectiveAccess
with_override a none = a
with_override a (some o) = record a {
  entitlements = assign a.entitlements (get_or o.entitlements []);
  limits = assign a.limits (get_or o.limits []);
}

unfoldable pub get_effective : ℕ → Db → EffectiveAccess
get_effective company d =
    with_override (with_plan free_access (plan_of company d))
      (find (λ o. o.company_id == company) d.overrides)

-- `entitlements[feature] === true`
unfoldable pub has : ℕ → String → Db → Bool
unfolding get_effective
has company feature d = get_or (property feature (get_effective company d).entitlements) false

-- `canActivate` of PlanGuard
unfoldable pub plan_guard : Option String → Option AuthenticatedUser → Db → Result Bool
unfolding has
plan_guard none user d = ok true
plan_guard (some feature) user d = elim (company_of user) [
  | none ↦ err (forbidden "No active company for this request.")
  | some company ↦
      if has company feature d
      then ok true
      else err (forbidden "Your plan does not include the feature.")
]
