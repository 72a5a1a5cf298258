-- ===== src/Devices/Renewed.antt =====
-- A new device after `revoke` of devices/device-registration.service.ts.
use vellora_backend.Prelude.{
  ℕ, true, Option, none, some, String, arith, ◌≡◌, ◌∙◌, refl, Option-cases, inl, inr,
}
use vellora_backend.Nest.{ok}
use vellora_backend.Database.{find}
use vellora_backend.Access.Principal.{Request, current_user_id}
use vellora_backend.Devices.Model.{
  DeviceRegistration, Db, Employee, active, by_id, active_key, find_active_for_employee, create,
  get_company_settings, add_log, employee_by_user,
}
use vellora_backend.Devices.Service.{register_mine, my_employee, revoke, token_of, my_registration}
use vellora_backend.Devices.Views.{RegisterMyDeviceDto, MyDeviceStatus, is_given, public_view}
use vellora_backend.Devices.OneActive.{IsValid}
use vellora_backend.Devices.Registering.{employee_known, require_known}
use vellora_backend.Devices.Gate.{revoke_lem}

module _ (company : ℕ) (trim : String → String) (new_token : String) where
  my_employee-same :
      (r : Request) (d d' : Db)
      → d'.employees ≡ d.employees
      → (my_employee r company trim new_token d').0 ≡ (my_employee r company trim new_token d).0
  unfolding my_employee employee_by_user
  my_employee-same r d d' same = elim (Option-cases (current_user_id r.user)) [
    | inl anonymous ↦ ground (arith, anonymous)
    | inr (u, known) ↦ ground (arith, known, same)
  ]

  -- An employee without an active registration may register a device that sends a fingerprint.
  registers :
      (r : Request) (dto : RegisterMyDeviceDto) (e : Employee) (d : Db)
      → (my_employee r company trim new_token d).0 ≡ ok (some e)
      → find (active_key company e.id) d.registrations ≡ none
      → is_given dto.fingerprint ≡ true
      → (s : MyDeviceStatus) × ((register_mine r company trim new_token dto d).0 ≡ ok s)
        × (s.registered ≡ true)
        × (s.device_token ≡ some (token_of r company trim new_token dto))
  unfolding register_mine find_active_for_employee create get_company_settings add_log
  registers r dto e d me alone printed =
      let (o, mine) = employee_known r company trim new_token d in
      let (b, require) = require_known r company trim new_token d in
      let own : o ≡ some e = ground (arith, mine, me) in
      let s : MyDeviceStatus = record {
        is_employee = true;
        employee_id = some e.id;
        registered = true;
        require_fingerprint = b;
        registration =
            some (public_view (my_registration r company trim new_token e.id dto (r.uuid d.drawn)));
        device_token = some (token_of r company trim new_token dto);
      } in
      (s, ground (arith, mine, own, alone, require, printed), refl, refl)

  -- Once `revoke` has returned for the active registration of an employee, whoever called it,
  -- `registerMine` of that employee from a device that sends a fingerprint goes through, and answers
  -- with the token of the new device.
  pub register_mine-revoke :
      (r r' : Request) (id : ℕ) (g : DeviceRegistration) (e : Employee) (dto : RegisterMyDeviceDto)
      (d : Db)
      → IsValid d
      → find (by_id company id) d.registrations ≡ some g
      → g.status ≡ active
      → (o : Option DeviceRegistration) → (revoke r company trim new_token id d).0 ≡ ok o
      → (my_employee r' company trim new_token d).0 ≡ ok (some e)
      → e.id ≡ g.employee_id
      → is_given dto.fingerprint ≡ true
      → (s : MyDeviceStatus) × ((register_mine r' company trim new_token dto
            (revoke r company trim new_token id d).1).0
          ≡ ok s)
        × (s.registered ≡ true)
        × (s.device_token ≡ some (token_of r' company trim new_token dto))
  register_mine-revoke r r' id g e dto d valid found on o returned me own printed =
      let d' : Db = (revoke r company trim new_token id d).1 in
      let (gone, staff, _) = revoke_lem r company trim new_token id g d valid found on o returned in
      registers r' dto e d' (my_employee-same r' d d' staff ∙ me) (rw own gone) printed
