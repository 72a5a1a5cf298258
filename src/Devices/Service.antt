-- ===== src/Devices/Service.antt =====
-- devices/device-registration.service.ts, handler by handler. `String.trim` and the random token are
-- parameters.
use vellora_backend.Prelude.{
  ℕ, Bool, true, false, not, ◌&&◌, ◌||◌, Option, none, some, String, ◌==◌, is_some,
}
use mathlib.Core.Option.{get_or}
use vellora_backend.Nest.{
  Action, Done, bad_request, forbidden, not_found, pure, gets, or_throw, throw_if, ◌>>=◌, ◌>>◌,
}
use vellora_backend.Database.{unless_undefined, find}
use vellora_backend.Access.Principal.{Request, scoped_store_ids, current_user_id, is_out_of_scope}
use vellora_backend.Devices.Model.{
  DeviceRegistration, DeviceRegistrationLog, Db, Employee, Status, active, LogAction, registered,
  enabled, is_status, find_by_id, find_active_for_employee, create, update_registration, add_log,
  employee_by_user, employee_by_id, get_company_settings,
}
use vellora_backend.Devices.Views.{
  RegisterMyDeviceDto, AdminRegisterDto, Presented, MyDeviceStatus, public_view, is_given, or_text,
  default_label, same_text,
}

module _ (r : Request) (company : ℕ) (trim : String → String) (new_token : String) where
  -- `userId ? await employeeByUser(companyId, userId) : null`
  unfoldable pub my_employee : Action Db (Option Employee)
  unfolding employee_by_user
  my_employee = elim (current_user_id r.user) [
    | none ↦ pure none
    | some u ↦ employee_by_user r company u
  ]

  unfoldable pub assert_store_in_scope : Option ℕ → Action Db Done
  assert_store_in_scope store =
      throw_if (is_out_of_scope (scoped_store_ids r.user) store)
        (forbidden "That employee is outside your store scope.")

  abbrev pub log_entry : DeviceRegistration → LogAction → Option String → DeviceRegistrationLog
  log_entry g action note = record {
    company_id = company;
    employee_id = g.employee_id;
    registration_id = g.id;
    action = action;
    actor_user_id = current_user_id r.user;
    device_label = g.label;
    note = note;
  }

  unfoldable pub get_my_status : Action Db MyDeviceStatus
  unfolding my_employee find_active_for_employee get_company_settings
  get_my_status = do
    employee ← my_employee
    require ← get_company_settings r company
    elim employee [
      | none ↦ pure (record {
        is_employee = false;
        employee_id = none;
        registered = false;
        require_fingerprint = require;
        registration = none;
        device_token = none;
      })
      | some e ↦ find_active_for_employee r company e.id >>= λ found. pure (record {
        is_employee = true;
        employee_id = some e.id;
        registered = is_some found;
        require_fingerprint = require;
        registration = elim found [ none ↦ none | some g ↦ some (public_view g) ];
        device_token = none;
      })
    ]

  -- `dto.deviceToken?.trim() || newToken()`
  abbrev pub token_of : RegisterMyDeviceDto → String
  token_of dto = elim dto.device_token [ none ↦ new_token | some t ↦ or_text (trim t) new_token ]

  abbrev pub my_registration : ℕ → RegisterMyDeviceDto → ℕ → DeviceRegistration
  my_registration employee dto id = record {
    id = id;
    company_id = company;
    employee_id = employee;
    device_token = token_of dto;
    fingerprint = dto.fingerprint;
    label = some (get_or dto.label (default_label dto.platform));
    platform = dto.platform;
    status = active;
    registered_at = r.now;
    last_seen_at = some r.now;
    revoked_by = none;
    revoked_at = none;
  }

  unfoldable pub register_mine : RegisterMyDeviceDto → Action Db MyDeviceStatus
  unfolding my_employee find_active_for_employee get_company_settings create add_log
  register_mine dto = do
    employee ← or_throw (← my_employee) (forbidden "Only employees can register a personal device.")
    existing ← find_active_for_employee r company employee.id
    throw_if (is_some existing) (bad_request "This account already has a registered device.")
    require ← get_company_settings r company
    throw_if (require && not (is_given dto.fingerprint))
        (bad_request "A device fingerprint is required to register.")
    created ← create r company (my_registration employee.id dto)
    add_log r company (log_entry created registered (some "Self-registered from device."))
    pure (record {
      is_employee = true;
      employee_id = some employee.id;
      registered = true;
      require_fingerprint = require;
      registration = some (public_view created);
      device_token = some (token_of dto);
    })

  abbrev pub admin_registration : AdminRegisterDto → ℕ → DeviceRegistration
  admin_registration dto id = record {
    id = id;
    company_id = company;
    employee_id = dto.employee_id;
    device_token = new_token;
    fingerprint = none;
    label = some (get_or dto.label "Registered by admin");
    platform = dto.platform;
    status = active;
    registered_at = r.now;
    last_seen_at = none;
    revoked_by = none;
    revoked_at = none;
  }

  unfoldable pub admin_register : AdminRegisterDto → Action Db DeviceRegistration
  unfolding employee_by_id assert_store_in_scope find_active_for_employee create add_log
  admin_register dto = do
    employee ←
        or_throw (← employee_by_id r company dto.employee_id) (not_found "Employee not found.")
    assert_store_in_scope employee.primary_store_id
    existing ← find_active_for_employee r company dto.employee_id
    throw_if (is_some existing) (bad_request "This employee already has a registered device.")
    created ← create r company (admin_registration dto)
    add_log r company (log_entry created registered (some "Registered by manager."))
    pure created

  -- `reg.employee?.primaryStoreId ?? null`, on the joined row.
  abbrev pub store_of : DeviceRegistration → Db → Option ℕ
  store_of g d = elim (find (λ e. e.company_id == company && e.id == g.employee_id) d.employees) [
    | none ↦ none
    | some e ↦ e.primary_store_id
  ]

  unfoldable pub get_registration : ℕ → Action Db DeviceRegistration
  unfolding find_by_id assert_store_in_scope
  get_registration id = do
    g ← or_throw (← find_by_id r company id) (not_found "Device registration not found.")
    home ← gets (store_of g)
    assert_store_in_scope home
    pure g

  unfoldable pub revoke : ℕ → Action Db (Option DeviceRegistration)
  unfolding get_registration update_registration add_log
  revoke id = do
    g ← get_registration id
    updated ← update_registration r company id λ g. record g {
      status = Status.revoked;
      revoked_by = unless_undefined (current_user_id r.user) g.revoked_by;
      revoked_at = some r.now;
    }
    add_log r company (log_entry g LogAction.revoked (some "Registration removed."))
    pure updated

  unfoldable pub disable : ℕ → Action Db (Option DeviceRegistration)
  unfolding get_registration update_registration add_log
  disable id = do
    g ← get_registration id
    throw_if (not (is_status g.status active))
        (bad_request "Only an active registration can be disabled.")
    updated ← update_registration r company id (λ g. record g { status = Status.disabled })
    add_log r company (log_entry g LogAction.disabled none)
    pure updated

  unfoldable pub enable : ℕ → Action Db (Option DeviceRegistration)
  unfolding get_registration find_active_for_employee update_registration add_log
  enable id = do
    g ← get_registration id
    throw_if (not (is_status g.status Status.disabled))
        (bad_request "Only a disabled registration can be re-enabled.")
    other ← find_active_for_employee r company g.employee_id
    throw_if (is_some other) (bad_request "This employee already has another active device.")
    updated ← update_registration r company id (λ g. record g { status = active })
    add_log r company (log_entry g enabled none)
    pure updated

  -- `presented.deviceToken && presented.deviceToken !== active.deviceToken`
  abbrev pub is_other_device : Presented → DeviceRegistration → Bool
  is_other_device p g =
      is_given p.device_token && not (same_text p.device_token (some g.device_token))

  unfoldable pub assert_can_clock_in : ℕ → Presented → Action Db ℕ
  unfolding find_active_for_employee get_company_settings update_registration
  assert_can_clock_in employee p = do
    found ←
        or_throw (← find_active_for_employee r company employee)
          (forbidden "This device is not registered.")
    require ← get_company_settings r company
    throw_if (is_other_device p found)
        (forbidden "This is not the device registered to your account.")
    throw_if
        (require
          && (not (is_given p.fingerprint) || not (same_text p.fingerprint found.fingerprint)))
        (forbidden "Device verification failed.")
    update_registration r company found.id (λ g. record g { last_seen_at = some r.now })
    pure found.id
