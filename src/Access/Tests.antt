-- ===== src/Access/Tests.antt =====
-- permissions/, entitlements/ and the rate limiter on small inputs.
use vellora_backend.Prelude.{
  Option, ℕ, ◌+◌, ◌-◌, min, ◌≡◌, refl, true, false, none, some, List, [], ◌∷◌, All, arith,
}
use mathlib.Core.Option.{get_or}
use vellora_backend.Access.Principal.{store_manager, hr}
use vellora_backend.Access.Permissions.{
  PermissionInput, Db, can, set_overrides, get_matrix, upsert_all, upsert,
}
use vellora_backend.Access.Permissions.Overrides.{last_entry}
use vellora_backend.Access.Permissions.Matrix.{
  IsKeyed, IsAnswer, can-set_overrides, get_matrix-IsAnswer,
}
use vellora_backend.Access.RateLimit.{Hit, RateLimitOptions, passed, seen}
use vellora_backend.Access.RateLimit.Window.{passed-window}
use vellora_backend.Access.Entitlements.{
  Plan, Subscription, SubscriptionStatus, past_due, EntitlementOverride, property, get_effective,
  plan_of,
}
use vellora_backend.Access.Entitlements as Entitlements

abbrev no_rows : Db
no_rows = record { permissions = []; audit = [] }

abbrev entries : List PermissionInput
entries =
    record { role = store_manager; resource = "billing"; action = none; allowed = true }
    ∷ record { role = hr; resource = "stores"; action = none; allowed = false }
    ∷ record { role = store_manager; resource = "billing"; action = some "access"; allowed = false }
    ∷ []

no_rows-IsKeyed : IsKeyed no_rows.permissions
no_rows-IsKeyed = λ c role resource action. tt

can-set_overrides_example :
    (can 1 hr "stores" "access" (set_overrides 1 none entries no_rows).1
      ≡ get_or (last_entry 1 1 hr "stores" "access" entries) (can 1 hr "stores" "access" no_rows))
    × IsKeyed (set_overrides 1 none entries no_rows).1.permissions
can-set_overrides_example =
    can-set_overrides 1 1 none entries hr "stores" "access" no_rows no_rows-IsKeyed

refused : can 1 hr "stores" "access" (set_overrides 1 none entries no_rows).1 ≡ false
unfolding can set_overrides upsert_all upsert
refused = refl

get_matrix-IsAnswer_example :
    All
      (IsAnswer 1 (set_overrides 1 none entries no_rows).1)
      (get_matrix 1 (set_overrides 1 none entries no_rows).1)
get_matrix-IsAnswer_example =
    get_matrix-IsAnswer 1 (set_overrides 1 none entries no_rows).1
      (can-set_overrides 1 1 none entries hr "stores" "access" no_rows no_rows-IsKeyed).1

abbrev limits : RateLimitOptions
limits = record { limit = 2; window_ms = 100 }

abbrev hit : ℕ → Hit
hit now = record { key = "apply"; options = limits; now = now }

abbrev later : List Hit
later = hit 10 ∷ record { key = "list"; options = limits; now = 15 } ∷ hit 20 ∷ hit 30 ∷ []

passed-window_example : passed "apply" (hit 5 ∷ later) [] ≡ 1 + min (seen "apply" later) (2 - 1)
passed-window_example = passed-window (hit 5) later [] refl (omega arith) (
  (omega arith, λ same. refl),
  ((omega arith, λ same. refl), ((omega arith, λ same. refl), ((omega arith, λ same. refl), tt))),
)

two_passed : passed "apply" (hit 5 ∷ later) [] ≡ 2
unfolding passed
two_passed = refl

abbrev growth : Plan
growth = record {
  id = 4;
  key = "growth";
  name = "Growth";
  entitlements_json = some (("analytics", true) ∷ []);
  limits_json = none;
}

abbrev subscribed : Entitlements.Db
subscribed = record {
  subscriptions = record { company_id = 1; plan_id = 4; status = past_due } ∷ [];
  plans = growth ∷ [];
  overrides = record { company_id = 1; entitlements = none; limits = none } ∷ [];
}

unlocked : property "analytics" (get_effective 1 subscribed).entitlements ≡ some true
unfolding get_effective
unlocked = refl
