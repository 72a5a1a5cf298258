-- ===== src/Devices/Tests.antt =====
-- devices/ on small inputs.
use vellora_backend.Prelude.{◌↔◌, ◌+◌, ◌≡◌, refl, true, none, some, String, [], ◌∷◌}
use vellora_backend.Nest.{ok, err, forbidden}
use vellora_backend.Database.{find}
use vellora_backend.Access.Principal.{store_manager, Request, AuthenticatedUser, owner}
use vellora_backend.Devices.Model.{
  DeviceRegistration, Db, Employee, Status, active, active_key, by_id,
}
use vellora_backend.Devices.Service.{
  register_mine, admin_register, revoke, disable, enable, assert_can_clock_in, my_employee,
}
use vellora_backend.Devices.Views.{RegisterMyDeviceDto, AdminRegisterDto, Presented, MyDeviceStatus}
use vellora_backend.Devices.OneActive.{IsValid, Keeps, disable-Keeps, enable-Keeps}
use vellora_backend.Devices.Registering.{register_mine-Keeps, admin_register-Keeps}
use vellora_backend.Devices.Admitted.{IsFromDevice, assert_can_clock_in-IsFromDevice}
use vellora_backend.Devices.Renewed.{register_mine-revoke}
use vellora_backend.Devices.Listing.{ListRegistrationsDto}
use vellora_backend.Devices.Gate.{clock_in-disable, clock_in-revoke, clock_in-register_mine}

abbrev worker : AuthenticatedUser
worker = record {
  supabase_uid = 90;
  user_id = 5;
  memberships = [];
  company_id = some 1;
  role = some owner;
  scope_type = none;
  scope_ids = none;
  platform_role = none;
}

abbrev request : Request
request = record { user = some worker; now = 1000; uuid = λ n. 70 + n }

-- `String.trim` on texts without blanks at their ends.
abbrev as_given : String → String
as_given s = s

abbrev ann : Employee
ann = record { id = 8; company_id = 1; user_id = some 5; primary_store_id = some 2 }

abbrev empty : Db
empty = record {
  registrations = [];
  logs = [];
  employees = ann ∷ [];
  memberships = [];
  settings = record { company_id = 1; require_device_fingerprint = true } ∷ [];
  drawn = 0;
}

abbrev phone : RegisterMyDeviceDto
phone = record {
  label = none;
  platform = some "iPhone";
  fingerprint = some "f00d";
  device_token = none;
}

abbrev by_hr : AdminRegisterDto
by_hr = record { employee_id = 8; label = none; platform = none }

abbrev bound : Db
bound = (admin_register request 1 as_given "dev_1" by_hr empty).1

abbrev frozen : Db
frozen = (disable request 1 as_given "dev_1" 70 bound).1

empty-IsValid : IsValid empty
empty-IsValid = record { ids = λ c i. tt; actives = λ c e. tt }

admin_register-Keeps_example : Keeps (admin_register request 1 as_given "dev_1" by_hr empty)
admin_register-Keeps_example =
    admin_register-Keeps request 1 as_given "dev_1" by_hr empty empty-IsValid refl

register_mine-Keeps_example : Keeps (register_mine request 1 as_given "dev_1" phone empty)
register_mine-Keeps_example =
    register_mine-Keeps request 1 as_given "dev_1" phone empty empty-IsValid refl

bound-IsValid : IsValid bound
bound-IsValid = (admin_register-Keeps request 1 as_given "dev_1" by_hr empty empty-IsValid refl).1

frozen-IsValid : IsValid frozen
frozen-IsValid = (disable-Keeps request 1 as_given "dev_1" 70 bound bound-IsValid).1

enable-Keeps_example : Keeps (enable request 1 as_given "dev_1" 70 frozen)
enable-Keeps_example = enable-Keeps request 1 as_given "dev_1" 70 frozen frozen-IsValid

abbrev registration : DeviceRegistration
registration = record {
  id = 70;
  company_id = 1;
  employee_id = 8;
  device_token = "dev_1";
  fingerprint = none;
  label = some "Registered by admin";
  platform = none;
  status = active;
  registered_at = 1000;
  last_seen_at = none;
  revoked_by = none;
  revoked_at = none;
}

abbrev presented : Presented
presented = record { device_token = some "dev_1"; fingerprint = some "f00d" }

abbrev gone : DeviceRegistration
gone = record registration { status = Status.revoked; revoked_by = some 5; revoked_at = some 1000 }

is_bound : find (by_id 1 70) bound.registrations ≡ some registration
unfolding admin_register
is_bound = refl

is_revoked : (revoke request 1 as_given "dev_1" 70 bound).0 ≡ ok (some gone)
unfolding revoke admin_register
is_revoked = refl

clock_in-revoke_example :
    (assert_can_clock_in request 1 as_given "dev_1" 8 presented
      (revoke request 1 as_given "dev_1" 70 bound).1).0
    ≡ err (forbidden "This device is not registered.")
clock_in-revoke_example =
    clock_in-revoke request 1 as_given "dev_1" 70 registration presented bound bound-IsValid
      is_bound refl (some gone) is_revoked

is_revoked_2 : (revoke request 1 as_given "dev_2" 70 bound).0 ≡ ok (some gone)
unfolding revoke admin_register
is_revoked_2 = refl

knows_ann_bound : (my_employee request 1 as_given "dev_2" bound).0 ≡ ok (some ann)
unfolding my_employee admin_register
knows_ann_bound = refl

-- The employee registers a phone of its own afterwards.
register_mine-revoke_example :
    (s : MyDeviceStatus) × ((register_mine request 1 as_given "dev_2" phone
        (revoke request 1 as_given "dev_2" 70 bound).1).0
      ≡ ok s)
    × (s.registered ≡ true)
    × (s.device_token ≡ some "dev_2")
register_mine-revoke_example =
    register_mine-revoke 1 as_given "dev_2" request request 70 registration ann phone bound
      bound-IsValid is_bound refl (some gone) is_revoked_2 knows_ann_bound refl refl

is_frozen :
    (disable request 1 as_given "dev_1" 70 bound).0
    ≡ ok (some (record registration { status = Status.disabled }))
unfolding disable admin_register
is_frozen = refl

clock_in-disable_example :
    (registration.status ≡ active)
    × ((assert_can_clock_in request 1 as_given "dev_1" 8 presented
          (disable request 1 as_given "dev_1" 70 bound).1).0
        ≡ err (forbidden "This device is not registered."))
clock_in-disable_example =
    clock_in-disable request 1 as_given "dev_1" 70 registration presented bound bound-IsValid
      is_bound (some (record registration { status = Status.disabled })) is_frozen

abbrev told : MyDeviceStatus
told = record {
  is_employee = true;
  employee_id = some 8;
  registered = true;
  require_fingerprint = true;
  registration = some (record {
    id = 70;
    label = some "iPhone device";
    platform = some "iPhone";
    status = active;
    registered_at = 1000;
    last_seen_at = some 1000;
  });
  device_token = some "dev_1";
}

knows_ann : (my_employee request 1 as_given "dev_1" empty).0 ≡ ok (some ann)
unfolding my_employee
knows_ann = refl

is_told : (register_mine request 1 as_given "dev_1" phone empty).0 ≡ ok told
unfolding register_mine
is_told = refl

clock_in-register_mine_example :
    (assert_can_clock_in
      (record request { now = 2000 })
      1
      as_given
      "dev_1"
      8
      (record { device_token = some "dev_1"; fingerprint = some "f00d" })
      (register_mine request 1 as_given "dev_1" phone empty).1).0
    ≡ ok 70
clock_in-register_mine_example =
    clock_in-register_mine request 1 as_given "dev_1" 2000 phone ann told empty knows_ann is_told

abbrev manager : Request
manager = record request {
  user = some (record worker { role = some store_manager; scope_ids = some (2 ∷ []) });
}

abbrev any_row : ListRegistrationsDto
any_row = record { employee_id = none; status = some active }

-- A company without a row of settings.
abbrev lax : Db
lax = record bound { settings = [] }

-- No token at all passes, since no fingerprint is required.
assert_can_clock_in-IsFromDevice_example :
    ((assert_can_clock_in request 1 as_given "dev_1" 8
        (record { device_token = none; fingerprint = none })
        lax).0
      ≡ ok 70)
    ↔ ((g : DeviceRegistration) × (find (active_key 1 8) lax.registrations ≡ some g)
        × (g.id ≡ 70)
        × IsFromDevice 1 lax (record { device_token = none; fingerprint = none }) g)
assert_can_clock_in-IsFromDevice_example =
    assert_can_clock_in-IsFromDevice request 1 as_given "dev_1" 8 70
      (record { device_token = none; fingerprint = none }) lax

tokenless :
    (assert_can_clock_in request 1 as_given "dev_1" 8
      (record { device_token = none; fingerprint = none })
      lax).0
    ≡ ok 70
unfolding assert_can_clock_in admin_register
tokenless = refl

-- The company requires a fingerprint, and the registration has none.
unprinted :
    (assert_can_clock_in request 1 as_given "dev_1" 8 presented bound).0
    ≡ err (forbidden "Device verification failed.")
unfolding assert_can_clock_in admin_register
unprinted = refl
