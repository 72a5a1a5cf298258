-- ===== src/Employees/Model.antt =====
-- The tables that employees/activation-requests.repository.ts reads, and what its service decides of a
-- request.
use vellora_backend.Prelude.{
  ℕ, Bool, true, false, ◌&&◌, Option, none, some, String, List, [], map, ◌==◌, ltb, str_eq,
}
use vellora_backend.Access.Principal.{
  MembershipRole, owner, hr, area_manager, store_manager, employee, ScopeType, AuthenticatedUser,
}
use vellora_backend.Access.Entitlements as Entitlements
use vellora_backend.Access.Limits as Limits
use vellora_backend.Access.Limits.{assert_active_user_limit}

pub data RequestStatus : Type 0 where
  pending approved rejected : RequestStatus

pub data MembershipStatus : Type 0 where
  active invited suspended inactive : MembershipStatus

pub data Origin : Type 0 where
  created self_register : Origin

pub record ActivationRequest : Type 0 where
  pub id : ℕ
  pub company_id : ℕ
  pub employee_id : Option ℕ
  pub membership_id : Option ℕ
  pub email : String
  pub requested_role : MembershipRole
  pub status : RequestStatus
  pub source : Origin
  pub requested_by : Option ℕ
  pub decided_by : Option ℕ
  pub decided_at : Option ℕ
  pub reject_reason : Option String
  pub cooldown_until : Option ℕ
  pub created_at : ℕ

pub record User : Type 0 where
  pub id : ℕ
  pub email : String
  pub supabase_uid : ℕ

pub record Membership : Type 0 where
  pub id : ℕ
  pub user_id : ℕ
  pub company_id : ℕ
  pub role : MembershipRole
  pub scope_type : ScopeType
  pub scope_ids : List ℕ
  pub status : MembershipStatus

pub record Employee : Type 0 where
  pub id : ℕ
  pub company_id : ℕ
  pub user_id : Option ℕ

-- `notifications.emit` for an approver.
pub record Notice : Type 0 where
  pub company_id : ℕ
  pub user_id : ℕ
  pub email : String
  pub role : MembershipRole

pub record Db : Type 0 where
  pub requests : List ActivationRequest
  pub users : List User
  pub memberships : List Membership
  pub employees : List Employee
  pub entitlements : Entitlements.Db
  pub notices : List Notice
  pub drawn : ℕ

-- `ROLE_ORDER.indexOf(role)`
abbrev pub role_rank : MembershipRole → ℕ
role_rank owner = 0
role_rank hr = 1
role_rank area_manager = 2
role_rank store_manager = 3
role_rank employee = 4

-- `assignableRoles(actor).includes(role)`
abbrev pub is_assignable : Option MembershipRole → MembershipRole → Bool
is_assignable none role = false
is_assignable (some actor) role = ltb (role_rank actor) (role_rank role)

abbrev pub cooldown_ms : ℕ
cooldown_ms = 86400000

abbrev pub is_pending : RequestStatus → Bool
is_pending pending = true
is_pending _ = false

abbrev pub is_rejected : RequestStatus → Bool
is_rejected rejected = true
is_rejected _ = false

abbrev pub same_request_status : RequestStatus → RequestStatus → Bool
same_request_status pending pending = true
same_request_status approved approved = true
same_request_status rejected rejected = true
same_request_status _ _ = false

abbrev pub is_active : MembershipStatus → Bool
is_active active = true
is_active _ = false

-- `['owner', 'hr'].includes(role)`
abbrev pub is_approver : MembershipRole → Bool
is_approver owner = true
is_approver hr = true
is_approver _ = false

abbrev pub by_id : ℕ → ℕ → ActivationRequest → Bool
by_id c id q = q.company_id == c && q.id == id

abbrev pub of_email : ℕ → String → ActivationRequest → Bool
of_email c email q = q.company_id == c && str_eq q.email email

-- The key of the unique index.
abbrev pub member_key : ℕ → ℕ → Membership → Bool
member_key user c m = m.user_id == user && m.company_id == c

abbrev pub role_of : Option AuthenticatedUser → Option MembershipRole
role_of none = none
role_of (some u) = u.role

pub record RaiseInput : Type 0 where
  pub employee_id : Option ℕ
  pub email : String
  pub role : MembershipRole
  pub source : Option Origin

-- What billing counts.
abbrev pub billed : Db → Limits.Db
billed d = record {
  entitlements = d.entitlements;
  employee_companies = map (λ e. e.company_id) d.employees;
  store_companies = [];
  memberships =
      map (λ m. record { company_id = m.company_id; active = is_active m.status }) d.memberships;
}

abbrev pub is_created : Origin → Bool
is_created created = true
is_created self_register = false

-- `latest?.status === 'pending'`
abbrev pub is_waiting : Option ActivationRequest → Bool
is_waiting none = false
is_waiting (some q) = is_pending q.status

-- `status === 'rejected' && cooldownUntil && … > Date.now()`
abbrev pub is_cooling : ℕ → Option ActivationRequest → Bool
is_cooling now none = false
is_cooling now (some q) =
    is_rejected q.status && elim q.cooldown_until [ none ↦ false | some until ↦ ltb now until ]
