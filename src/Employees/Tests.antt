-- ===== src/Employees/Tests.antt =====
-- The activation requests of employees/ on small inputs.
use vellora_backend.Prelude.{
  ◌≤◌, ℕ, ◌<◌, ◌+◌, ◌≡◌, refl, false, Option, none, some, String, [], ◌∷◌, arith,
}
use vellora_backend.Nest.{ok, err, forbidden}
use vellora_backend.Database.{select}
use vellora_backend.Access.Principal.{AuthenticatedUser, Request, MembershipRole, hr, employee}
use vellora_backend.Attendance.Model.{latest}
use vellora_backend.Employees.Activation.{origin_of, raise, reject, approve}
use vellora_backend.Employees.Model.{
  ActivationRequest, pending, rejected, approved, member_key, created, Db, RaiseInput, role_rank,
  role_of, is_waiting, of_email,
}
use vellora_backend.Database.Totals.{IsUnique}
use vellora_backend.Access.Entitlements.{property, get_effective, at_most}
use vellora_backend.Employees.Seats.{seats, approve-seats}
use vellora_backend.Employees.Applying.{raise-IsBelow, raise-reject}

abbrev manager : AuthenticatedUser
manager = record {
  supabase_uid = 90;
  user_id = 5;
  memberships = [];
  company_id = some 1;
  role = some hr;
  scope_type = none;
  scope_ids = none;
  platform_role = none;
}

abbrev at_time : ℕ → Request
at_time now = record { user = some manager; now = now; uuid = λ n. 70 + n }

abbrev no_invite : String → Option String → Option ℕ
no_invite email redirect_to = none

abbrev empty : Db
empty = record {
  requests = [];
  users = [];
  memberships = [];
  employees = [];
  entitlements = record { subscriptions = []; plans = []; overrides = [] };
  notices = [];
  drawn = 0;
}

abbrev hire : RaiseInput
hire = record { employee_id = none; email = "ann@shop"; role = employee; source = none }

abbrev asked : ActivationRequest
asked = record {
  id = 70;
  company_id = 1;
  employee_id = none;
  membership_id = none;
  email = "ann@shop";
  requested_role = employee;
  status = pending;
  source = created;
  requested_by = some 5;
  decided_by = none;
  decided_at = none;
  reject_reason = none;
  cooldown_until = none;
  created_at = 1000;
}

is_raised : (raise no_invite (at_time 1000) 1 hire empty).0 ≡ ok asked
unfolding raise
is_raised = refl

raise-IsBelow_example :
    (asked.status ≡ pending)
    × (asked.requested_role ≡ employee)
    × (origin_of no_invite (at_time 1000) 1 hire ≡ created
        → (a : MembershipRole) × (role_of (some manager) ≡ some a)
          × (role_rank a < role_rank employee))
    × (is_waiting (latest (λ x. x.created_at) (select (of_email 1 "ann@shop") empty.requests))
        ≡ false)
raise-IsBelow_example = raise-IsBelow no_invite 1 (at_time 1000) hire asked empty is_raised

abbrev waiting : Db
waiting = record empty { requests = asked ∷ []; drawn = 1 }

abbrev turned_down : ActivationRequest
turned_down = record asked {
  status = rejected;
  decided_by = some 5;
  decided_at = some 2000;
  cooldown_until = some 86402000;
}

is_rejected : (reject no_invite (at_time 2000) 1 70 none waiting).0 ≡ ok (some turned_down)
unfolding reject
is_rejected = refl

raise-reject_example :
    (why : String) × (raise no_invite
        (at_time 86401999)
        1
        hire
        (reject no_invite (at_time 2000) 1 70 none waiting).1
      ≡ (err (forbidden why), (reject no_invite (at_time 2000) 1 70 none waiting).1))
raise-reject_example =
    raise-reject no_invite 1 (at_time 2000) (at_time 86401999) 70 none asked (some turned_down) hire
      waiting refl refl is_rejected refl (omega arith)

abbrev invited : String → Option String → Option ℕ
invited email redirect_to = some 33

member_keys : (u : ℕ) → IsUnique (member_key u 1) waiting.memberships
member_keys u = tt

free_plan : property "employees" (get_effective 1 waiting.entitlements).limits ≡ some (at_most 10)
unfolding get_effective
free_plan = refl

abbrev let_in : ActivationRequest
let_in = record asked {
  status = approved;
  membership_id = some 72;
  decided_by = some 5;
  decided_at = some 2000;
}

is_let_in : (approve invited (at_time 2000) 1 70 none waiting).0 ≡ ok (some let_in)
unfolding approve get_effective
is_let_in = refl

approve-seats_example :
    seats 1 (approve invited (at_time 2000) 1 70 none waiting).1.memberships ≤ 10
approve-seats_example =
    approve-seats invited (at_time 2000) 1 70 10 none (some let_in) waiting member_keys free_plan
      is_let_in
