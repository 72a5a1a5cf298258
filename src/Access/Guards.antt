-- ===== src/Access/Guards.antt =====
-- The guards of common/guards and common/tenant. The metadata that the reflector finds on a route is
-- an argument, and so is the user that the authentication guard has put on the request.
use vellora_backend.Prelude.{
  ℕ, Bool, true, false, not, ◌&&◌, Option, none, some, List, [], ◌∷◌, ◌==◌, if◌then◌else◌, length,
}
use vellora_backend.Nest.{Result, ok, err, forbidden}
use vellora_backend.Access.Principal.{
  MembershipRole, owner, hr, area_manager, store_manager, employee, PlatformRole, super_admin,
  platform_admin, operations, AuthenticatedUser,
}

abbrev pub same_role : MembershipRole → MembershipRole → Bool
same_role owner owner = true
same_role hr hr = true
same_role area_manager area_manager = true
same_role store_manager store_manager = true
same_role employee employee = true
same_role _ _ = false

abbrev pub same_platform_role : PlatformRole → PlatformRole → Bool
same_platform_role super_admin super_admin = true
same_platform_role platform_admin platform_admin = true
same_platform_role operations operations = true
same_platform_role _ _ = false

-- `required.includes(role)`
abbrev pub includes_by {ℓ} : {A : Type ℓ} → (A → A → Bool) → List A → A → Bool
includes_by same [] x = false
includes_by same (y ∷ ys) x = if same y x then true else includes_by same ys x

abbrev pub is_listed {ℓ} : {A : Type ℓ} → Option (List A) → Bool
is_listed none = false
is_listed (some xs) = not (length xs == 0)

abbrev pub listed {ℓ} : {A : Type ℓ} → Option (List A) → List A
listed none = []
listed (some xs) = xs

-- `request.user?.role`
abbrev pub role_of : Option AuthenticatedUser → Option MembershipRole
role_of none = none
role_of (some u) = u.role

abbrev pub platform_role_of : Option AuthenticatedUser → Option PlatformRole
platform_role_of none = none
platform_role_of (some u) = u.platform_role

abbrev pub company_of : Option AuthenticatedUser → Option ℕ
company_of none = none
company_of (some u) = u.company_id

-- `canActivate` of RolesGuard
unfoldable pub roles_guard : Option (List MembershipRole) → Option AuthenticatedUser → Result Bool
roles_guard required user =
    if is_listed required
    then elim (role_of user) [
      | none ↦ err (forbidden "Your role does not permit this action.")
      | some role ↦
          if includes_by same_role (listed required) role
          then ok true
          else err (forbidden "Your role does not permit this action.")
    ]
    else ok true

-- `canActivate` of PlatformGuard
unfoldable pub platform_guard : Option (List PlatformRole) → Option AuthenticatedUser → Result Bool
platform_guard required user = elim (platform_role_of user) [
  | none ↦ err (forbidden "Platform access required.")
  | some role ↦
      if is_listed required
        && not (same_platform_role role super_admin)
        && not (includes_by same_platform_role (listed required) role)
      then err (forbidden "Insufficient platform role.")
      else ok true
]

-- `canActivate` of TenantGuard
unfoldable pub tenant_guard : Option AuthenticatedUser → Result Bool
tenant_guard none = err (forbidden "Authentication is required to resolve a tenant.")
tenant_guard (some u) = elim u.company_id [
  | none ↦ err (forbidden "Authenticated user is not associated with a company.")
  | some company ↦ ok true
]
