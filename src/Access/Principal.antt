-- ===== src/Access/Principal.antt =====
-- common/types/authenticated-user.ts and the role and scope enums of database/schema/enums.ts, with
-- the store scope that each service derives from the principal.
use vellora_backend.Prelude.{
  ℕ, Bool, true, false, not, Option, none, some, List, [], includes, if◌then◌else◌,
}
use mathlib.Core.Option.{get_or}

pub data MembershipRole : Type 0 where
  owner hr area_manager store_manager employee : MembershipRole

pub data ScopeType : Type 0 where
  group company area store self : ScopeType

pub data PlatformRole : Type 0 where
  super_admin platform_admin operations : PlatformRole

pub record MembershipContext : Type 0 where
  pub company_id : ℕ
  pub role : MembershipRole
  pub scope_type : ScopeType
  pub scope_ids : List ℕ

pub record AuthenticatedUser : Type 0 where
  pub supabase_uid : ℕ
  pub user_id : ℕ
  pub memberships : List MembershipContext
  pub company_id : Option ℕ
  pub role : Option MembershipRole
  pub scope_type : Option ScopeType
  pub scope_ids : Option (List ℕ)
  pub platform_role : Option PlatformRole

-- What a handler knows of its request: `tenant.get()?.user`, the clock, and the ids that the
-- database draws for the rows that the request inserts, in order.
pub record Request : Type 0 where
  pub user : Option AuthenticatedUser
  pub now : ℕ
  pub uuid : ℕ → ℕ

-- `role === 'area_manager' || role === 'store_manager'`
abbrev pub is_store_scoped : Option MembershipRole → Bool
is_store_scoped (some area_manager) = true
is_store_scoped (some store_manager) = true
is_store_scoped _ = false

-- `none` is the `null` of the services, which means all stores.
abbrev pub scoped_store_ids : Option AuthenticatedUser → Option (List ℕ)
scoped_store_ids none = some []
scoped_store_ids (some u) = if is_store_scoped u.role then some (get_or u.scope_ids []) else none

abbrev pub current_user_id : Option AuthenticatedUser → Option ℕ
current_user_id none = none
current_user_id (some u) = some u.user_id

-- `ids && (!storeId || !ids.includes(storeId))`
abbrev pub is_out_of_scope : Option (List ℕ) → Option ℕ → Bool
is_out_of_scope none store_id = false
is_out_of_scope (some ids) none = true
is_out_of_scope (some ids) (some store_id) = not (includes ids store_id)
