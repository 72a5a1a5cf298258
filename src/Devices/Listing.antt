-- ===== src/Devices/Listing.antt =====
-- `list` of devices/device-registration.service.ts.
use vellora_backend.Prelude.{
  ℕ, Bool, true, false, ◌&&◌, Option, none, some, List, [], ◌∷◌, ◌==◌, ◌≡◌, map, leb, take, sort_by,
  includes, unless_given, if◌then◌else◌, length,
}
use vellora_backend.Nest.{Action, gets}
use vellora_backend.Database.{find, select}
use vellora_backend.Access.Principal.{Request, MembershipRole, scoped_store_ids}
use vellora_backend.Devices.Model.{DeviceRegistration, Employee, Membership, Db, Status, is_status}

pub record ListRegistrationsDto : Type 0 where
  pub employee_id : Option ℕ
  pub status : Option Status

abbrev pub matches_filters : ℕ → ListRegistrationsDto → DeviceRegistration → Bool
matches_filters company dto g =
    g.company_id == company
    && unless_given (λ e. g.employee_id == e) dto.employee_id
    && unless_given (is_status g.status) dto.status

-- The joined row of the employee.
abbrev pub employee_of : ℕ → Db → DeviceRegistration → Option Employee
employee_of company d g = find (λ e. e.company_id == company && e.id == g.employee_id) d.employees

-- `sid != null && scopeStoreIds.includes(sid)`
abbrev pub in_stores : ℕ → Db → List ℕ → DeviceRegistration → Bool
in_stores company d scope g = elim (employee_of company d g) [
  | none ↦ false
  | some e ↦ elim e.primary_store_id [ none ↦ false | some s ↦ includes scope s ]
]

-- `membershipRolesByUser`: of several rows of a user the last one counts.
abbrev pub role_of_user : ℕ → ℕ → List Membership → Option MembershipRole
role_of_user company user [] = none
role_of_user company user (m ∷ ms) =
    let rest = role_of_user company user ms in
    elim rest [
      | some x ↦ some x
      | none ↦ if m.company_id == company && m.user_id == user then some m.role else none
    ]

-- A registration with its employee and the role of the employee's user.
pub record RegistrationWithEmployee : Type 0 where
  pub registration : DeviceRegistration
  pub employee : Option Employee
  pub membership_role : Option MembershipRole

abbrev pub with_employee : ℕ → Db → DeviceRegistration → RegistrationWithEmployee
with_employee company d g = record {
  registration = g;
  employee = employee_of company d g;
  membership_role = elim (employee_of company d g) [
    | none ↦ none
    | some e ↦ elim e.user_id [ none ↦ none | some u ↦ role_of_user company u d.memberships ]
  ];
}

abbrev pub registrations_of : ℕ → Db → ListRegistrationsDto → List DeviceRegistration
registrations_of company d dto = take 500 (
    sort_by (λ (a b : DeviceRegistration). leb b.registered_at a.registered_at)
      (select (matches_filters company dto) d.registrations))

module _ (r : Request) (company : ℕ) where
  -- With no store in scope the handler returns no row before it asks the database.
  unfoldable pub list : ListRegistrationsDto → Action Db (List RegistrationWithEmployee)
  list dto = gets λ d. elim (scoped_store_ids r.user) [
    | none ↦ map (with_employee company d) (registrations_of company d dto)
    | some scope ↦
        if length scope == 0
        then []
        else map (with_employee company d)
            (select (in_stores company d scope) (registrations_of company d dto))
  ]

  -- The row is of the company, passes the filters, and its employee works at a store of the caller, if
  -- the caller is bound to stores.
  abbrev pub IsAllowed : Db → ListRegistrationsDto → RegistrationWithEmployee → Type 0
  IsAllowed d dto x =
      (matches_filters company dto x.registration ≡ true)
      × ((scope : List ℕ)
          → scoped_store_ids r.user ≡ some scope
          → in_stores company d scope x.registration ≡ true)
      × (x.employee ≡ employee_of company d x.registration)

module _ (r : Request) (company : ℕ) (dto : ListRegistrationsDto) (d : Db) where
  abbrev Passes : DeviceRegistration → Type 0
  Passes g = matches_filters company dto g ≡ true
