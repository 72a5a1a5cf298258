-- ===== src/Access/Permissions.antt =====
-- permissions/permission-defaults.ts, permissions/permissions.service.ts and
-- permissions/permission.guard.ts. The resource and the action of a row are texts. The map of
-- `getMatrix` is keyed by the role, the resource and the action joined by colons; since neither a role
-- nor a module has a colon in it, its keys are read as triples here.
pub mod Overrides
pub mod Matrix
use vellora_backend.Prelude.{
  ℕ, suc, Bool, true, false, not, ◌&&◌, Option, none, some, String, List, [], ◌∷◌, ◌++◌, map, ◌==◌,
  str_eq, if◌then◌else◌, is_some, length,
}
use mathlib.Core.Option.{get_or}
use vellora_backend.Nest.{
  Action, Done, Result, ok, err, forbidden, pure, gets, modify, throw_if, ◌>>=◌, ◌>>◌,
}
use vellora_backend.Database.{find, select, update}
use vellora_backend.Access.Principal.{
  MembershipRole, owner, hr, area_manager, store_manager, employee, AuthenticatedUser,
}
use vellora_backend.Access.Guards.{same_role, includes_by, role_of, company_of}

abbrev pub modules : List String
modules =
    "dashboard" ∷ "companies" ∷ "stores" ∷ "employees" ∷ "shifts" ∷ "attendance" ∷ "leave"
    ∷ "onboarding" ∷ "documents" ∷ "reports" ∷ "messaging" ∷ "notifications" ∷ "settings"
    ∷ "billing" ∷ "recruiting" ∷ []

abbrev pub access : String
access = "access"

abbrev pub manager_modules : List String
manager_modules =
    "dashboard" ∷ "stores" ∷ "employees" ∷ "shifts" ∷ "attendance" ∷ "leave" ∷ "onboarding"
    ∷ "documents" ∷ "reports" ∷ "messaging" ∷ "notifications" ∷ []

abbrev pub employee_modules : List String
employee_modules =
    "dashboard" ∷ "shifts" ∷ "attendance" ∷ "leave" ∷ "onboarding" ∷ "documents" ∷ "messaging"
    ∷ "notifications" ∷ []

abbrev pub default_module_access : MembershipRole → List String
default_module_access owner = modules
default_module_access hr = select (λ m. not (str_eq m "billing")) modules
default_module_access area_manager = manager_modules
default_module_access store_manager = manager_modules
default_module_access employee = employee_modules

unfoldable pub default_allows : MembershipRole → String → Bool
default_allows role module_key = includes_by str_eq (default_module_access role) module_key

pub record Permission : Type 0 where
  pub company_id : ℕ
  pub role : MembershipRole
  pub resource : String
  pub action : String
  pub allowed : Bool

pub record PermissionInput : Type 0 where
  pub role : MembershipRole
  pub resource : String
  pub action : Option String
  pub allowed : Bool

pub data Source : Type 0 where
  default override : Source

pub record MatrixCell : Type 0 where
  pub role : MembershipRole
  pub resource : String
  pub action : String
  pub allowed : Bool
  pub source : Source

-- The audit row names the number of entries.
pub record AuditEntry : Type 0 where
  pub company_id : ℕ
  pub actor_user_id : Option ℕ
  pub action : String
  pub count : ℕ

pub record Db : Type 0 where
  pub permissions : List Permission
  pub audit : List AuditEntry

abbrev pub permission_key : ℕ → MembershipRole → String → String → Permission → Bool
permission_key company role resource action p =
    p.company_id == company
    && same_role p.role role
    && str_eq p.resource resource
    && str_eq p.action action

abbrev pub action_of : PermissionInput → String
action_of entry = get_or entry.action access

abbrev pub membership_roles : List MembershipRole
membership_roles = owner ∷ hr ∷ area_manager ∷ store_manager ∷ employee ∷ []

-- `new Map(...)` of the rows, asked for one key: a later row replaces an earlier one.
abbrev pub map_get : (Permission → Bool) → List Permission → Option Bool
map_get p [] = none
map_get p (r ∷ t) =
    let rest = map_get p t in
    elim rest [ some a ↦ some a | none ↦ if p r then some r.allowed else none ]

module _ (company : ℕ) where
  unfoldable pub can : MembershipRole → String → String → Db → Bool
  can role resource action d =
      elim (find (permission_key company role resource action) d.permissions) [
        | none ↦ default_allows role resource
        | some o ↦ o.allowed
      ]

  abbrev pub cell : List Permission → MembershipRole → String → MatrixCell
  cell overrides role module_key =
      let o = map_get (permission_key company role module_key access) overrides in
      record {
        role = role;
        resource = module_key;
        action = access;
        allowed = get_or o (default_allows role module_key);
        source = if is_some o then override else default;
      }

  abbrev pub cells : List Permission → List MembershipRole → List MatrixCell
  cells overrides [] = []
  cells overrides (role ∷ roles) = map (cell overrides role) modules ++ cells overrides roles

  unfoldable pub get_matrix : Db → List MatrixCell
  get_matrix d = cells (select (λ p. p.company_id == company) d.permissions) membership_roles

  -- `insert … onConflictDoUpdate` on the unique key of the table.
  unfoldable pub upsert : PermissionInput → List Permission → List Permission
  upsert entry t =
      let key : Permission → Bool =
        permission_key company entry.role entry.resource (action_of entry) in
      if is_some (find key t)
      then update key (λ p. record p { allowed = entry.allowed }) t
      else record {
        company_id = company;
        role = entry.role;
        resource = entry.resource;
        action = action_of entry;
        allowed = entry.allowed;
      }
        ∷ t

  unfoldable pub upsert_all : List PermissionInput → List Permission → List Permission
  upsert_all [] t = t
  upsert_all (entry ∷ entries) t = upsert_all entries (upsert entry t)

  unfoldable pub set_overrides : Option ℕ → List PermissionInput → Action Db (List MatrixCell)
  set_overrides actor entries = do
    modify (λ d. record d { permissions = upsert_all entries d.permissions })
    modify (λ d. record d {
      audit =
          record {
            company_id = company;
            actor_user_id = actor;
            action = "permissions.update";
            count = length entries;
          }
          ∷ d.audit;
    })
    gets get_matrix

pub record RequiredPermission : Type 0 where
  pub resource : String
  pub action : String

-- `canActivate` of PermissionGuard
unfoldable pub permission_guard :
    Option RequiredPermission → Option AuthenticatedUser → Db → Result Bool
unfolding can
permission_guard none user d = ok true
permission_guard (some required) user d = elim (company_of user) [
  | none ↦ err (forbidden "No active company role for this request.")
  | some company ↦ elim (role_of user) [
    | none ↦ err (forbidden "No active company role for this request.")
    | some role ↦
        if can company role required.resource required.action d
        then ok true
        else err (forbidden "Missing permission")
  ]
]
