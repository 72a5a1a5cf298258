-- ===== src/Devices/Model.antt =====
-- database/schema/device-registrations.ts and devices/device-registration.repository.ts. The user
-- agent of a row is left out, which the code writes and never reads.
use vellora_backend.Prelude.{
  ℕ, suc, Bool, true, false, not, ◌&&◌, Option, none, some, String, List, ◌∷◌, ◌==◌, is_value,
  if◌then◌else◌, is_some,
}
use vellora_backend.Nest.{Action, Done, ok, err, database_error, gets, modify}
use vellora_backend.Database.{find, update}
use vellora_backend.Access.Principal.{Request, MembershipRole}

pub data Status : Type 0 where
  active disabled revoked : Status

pub data LogAction : Type 0 where
  registered revoked disabled enabled re_registered : LogAction

pub record DeviceRegistration : Type 0 where
  pub id : ℕ
  pub company_id : ℕ
  pub employee_id : ℕ
  pub device_token : String
  pub fingerprint : Option String
  pub label : Option String
  pub platform : Option String
  pub status : Status
  pub registered_at : ℕ
  pub last_seen_at : Option ℕ
  pub revoked_by : Option ℕ
  pub revoked_at : Option ℕ

pub record DeviceRegistrationLog : Type 0 where
  pub company_id : ℕ
  pub employee_id : ℕ
  pub registration_id : ℕ
  pub action : LogAction
  pub actor_user_id : Option ℕ
  pub device_label : Option String
  pub note : Option String

-- The columns of the employee table that the repository reads.
pub record Employee : Type 0 where
  pub id : ℕ
  pub company_id : ℕ
  pub user_id : Option ℕ
  pub primary_store_id : Option ℕ

-- The columns of the membership table that the repository reads.
pub record Membership : Type 0 where
  pub company_id : ℕ
  pub user_id : ℕ
  pub role : MembershipRole

pub record CompanySettings : Type 0 where
  pub company_id : ℕ
  pub require_device_fingerprint : Bool

pub record Db : Type 0 where
  pub registrations : List DeviceRegistration
  pub logs : List DeviceRegistrationLog
  pub employees : List Employee
  pub memberships : List Membership
  pub settings : List CompanySettings
  pub drawn : ℕ

abbrev pub is_status : Status → Status → Bool
is_status active active = true
is_status Status.disabled Status.disabled = true
is_status Status.revoked Status.revoked = true
is_status _ _ = false

abbrev pub by_id : ℕ → ℕ → DeviceRegistration → Bool
by_id company id g = g.company_id == company && g.id == id

-- The key of the partial unique index, over the rows that are active.
abbrev pub active_key : ℕ → ℕ → DeviceRegistration → Bool
active_key company employee g =
    g.company_id == company && g.employee_id == employee && is_status g.status active

module _ (r : Request) (company : ℕ) where
  abbrev draw : Action Db ℕ
  draw d = (ok (r.uuid d.drawn), record d { drawn = suc d.drawn })

  unfoldable pub find_by_id : ℕ → Action Db (Option DeviceRegistration)
  find_by_id id = gets λ d. find (by_id company id) d.registrations

  unfoldable pub find_active_for_employee : ℕ → Action Db (Option DeviceRegistration)
  find_active_for_employee employee = gets λ d. find (active_key company employee) d.registrations

  -- A second active row of an employee is refused by the index.
  unfoldable pub create : (ℕ → DeviceRegistration) → Action Db DeviceRegistration
  create row d =
      let id = r.uuid d.drawn in
      let g : DeviceRegistration = row id in
      if is_status g.status active
        && is_some (find (active_key g.company_id g.employee_id) d.registrations)
      then (err database_error, d)
      else (ok g, record d { registrations = g ∷ d.registrations; drawn = suc d.drawn })

  -- A write that makes a row active is refused by the index if the employee has another such row.
  unfoldable pub update_registration :
      ℕ → (DeviceRegistration → DeviceRegistration) → Action Db (Option DeviceRegistration)
  update_registration id f d =
      let t = update (by_id company id) f d.registrations in
      elim (find (by_id company id) d.registrations) [
        | none ↦ (ok none, d)
        | some g ↦
            if not (is_status g.status active)
              && is_status (f g).status active
              && is_some (find (active_key company g.employee_id) d.registrations)
            then (err database_error, d)
            else (ok (some (f g)), record d { registrations = t })
      ]

  unfoldable pub add_log : DeviceRegistrationLog → Action Db Done
  add_log l = modify λ d. record d { logs = l ∷ d.logs }

  unfoldable pub employee_by_user : ℕ → Action Db (Option Employee)
  employee_by_user user =
      gets λ d. find (λ e. e.company_id == company && is_value user e.user_id) d.employees

  unfoldable pub employee_by_id : ℕ → Action Db (Option Employee)
  employee_by_id id = gets λ d. find (λ e. e.company_id == company && e.id == id) d.employees

  unfoldable pub get_company_settings : Action Db Bool
  get_company_settings = gets λ d. elim (find (λ s. s.company_id == company) d.settings) [
    | none ↦ false
    | some s ↦ s.require_device_fingerprint
  ]
