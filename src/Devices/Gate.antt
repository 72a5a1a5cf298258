-- ===== src/Devices/Gate.antt =====
-- The gate that devices/device-registration.service.ts puts before every punch.
use vellora_backend.Prelude.{
  ℕ, Bool, true, false, not, ◌&&◌, ◌||◌, Option, none, some, String, ◌∷◌, str_eq_iff, arith, ◌≡◌,
  refl, Bool-cases, Option-cases, inl, inr, ==_refl,
}
use vellora_backend.Nest.{ok, err, forbidden}
use vellora_backend.Database.{unless_undefined, find, update}
use vellora_backend.Database.Laws.{find-holds}
use vellora_backend.Database.Unique.{find-update_gone}
use vellora_backend.Access.Principal.{Request, current_user_id}
use vellora_backend.Devices.Model.{
  DeviceRegistration, Db, Employee, Status, active, is_status, by_id, active_key,
  find_active_for_employee, create, get_company_settings, update_registration, add_log,
}
use vellora_backend.Devices.Service.{
  register_mine, my_registration, my_employee, revoke, disable, assert_can_clock_in,
  is_other_device,
}
use vellora_backend.Devices.Views.{
  RegisterMyDeviceDto, Presented, MyDeviceStatus, is_given, same_text,
}
use vellora_backend.Devices.OneActive.{IsValid, update_one, looked_up}
use vellora_backend.Devices.Registering.{employee_known, require_known}

module _ (r : Request) (company : ℕ) (trim : String → String) (new_token : String) where
  closed :
      (employee : ℕ) (p : Presented) (d : Db)
      → find (active_key company employee) d.registrations ≡ none
      → (assert_can_clock_in r company trim new_token employee p d).0
        ≡ err (forbidden "This device is not registered.")
  unfolding assert_can_clock_in find_active_for_employee
  closed employee p d absent = ground (arith, absent)

  pub admitted :
      (employee : ℕ) (p : Presented) (g : DeviceRegistration) (b : Bool) (d : Db)
      → find (active_key company employee) d.registrations ≡ some g
      → get_company_settings r company d ≡ (ok b, d)
      → is_other_device r company trim new_token p g ≡ false
      → (b && (not (is_given p.fingerprint) || not (same_text p.fingerprint g.fingerprint))) ≡ false
      → (assert_can_clock_in r company trim new_token employee p d).0 ≡ ok g.id
  unfolding assert_can_clock_in find_active_for_employee update_registration
  admitted employee p g b d found require same verified =
      let stamped = stamp (find (by_id company g.id) d.registrations) refl in
      ground (arith, found, require, same, verified, stamped)
    where
      stamp :
          (o : Option DeviceRegistration)
          → find (by_id company g.id) d.registrations ≡ o
          → (x : Option DeviceRegistration) × ((update_registration r company g.id
                (λ g. record g { last_seen_at = some r.now })
                d).0
              ≡ ok x)
      stamp none e = (none, ground (arith, e))
      stamp (some h) e = (some (record h { last_seen_at = some r.now }), ground (arith, e))

module _ (r : Request) (company : ℕ) (trim : String → String) (new_token : String) where
  -- What `revoke` leaves of the binding of an employee.
  pub revoke_lem :
      (id : ℕ) (g : DeviceRegistration) (d : Db)
      → IsValid d
      → find (by_id company id) d.registrations ≡ some g
      → g.status ≡ active
      → (o : Option DeviceRegistration) → (revoke r company trim new_token id d).0 ≡ ok o
      → let d' = (revoke r company trim new_token id d).1 in
        (find (active_key company g.employee_id) d'.registrations ≡ none)
        × (d'.employees ≡ d.employees)
        × (d'.settings ≡ d.settings)
  unfolding revoke
  revoke_lem id g d valid found on o returned = elim (looked_up r company trim new_token id d) [
    | inl (e, stops, fine) ↦ absurd (ground (arith, stops, returned))
    | inr (h, goes, found') ↦
        let f : DeviceRegistration → DeviceRegistration = λ g. record g {
          status = Status.revoked;
          revoked_by = unless_undefined (current_user_id r.user) g.revoked_by;
          revoked_at = some r.now;
        } in
        let (ran, after) =
          update_one r company id f g d valid found (λ h. (refl, refl, refl)) (λ on. cc) in
        let at_id = find-holds (by_id company id) d.registrations g found in
        let key : active_key company g.employee_id g ≡ true = rw on (ground (arith, at_id)) in
        let gone =
          find-update_gone (by_id company id) (active_key company g.employee_id) f d.registrations g
            (valid.ids company id) (valid.actives company g.employee_id) found key (ground arith) in
        let rows : (revoke r company trim new_token id d).1.registrations
            ≡ update (by_id company id) f d.registrations =
          ground (arith, goes, ran) in
        (rw rows gone, ground (arith, goes, ran), ground (arith, goes, ran))
  ]

  -- Once `revoke` has returned for the active registration of an employee, the gate turns the employee
  -- away, whatever the client presents.
  pub clock_in-revoke :
      (id : ℕ) (g : DeviceRegistration) (p : Presented) (d : Db)
      → IsValid d
      → find (by_id company id) d.registrations ≡ some g
      → g.status ≡ active
      → (o : Option DeviceRegistration) → (revoke r company trim new_token id d).0 ≡ ok o
      → (assert_can_clock_in r company trim new_token g.employee_id p
          (revoke r company trim new_token id d).1).0
        ≡ err (forbidden "This device is not registered.")
  clock_in-revoke id g p d valid found on o returned =
      closed r company trim new_token g.employee_id p (revoke r company trim new_token id d).1
        (revoke_lem id g d valid found on o returned).0

  -- `disable` returns only for a registration that is active, and once it has, the gate turns the
  -- employee away, whatever the client presents.
  pub clock_in-disable :
      (id : ℕ) (g : DeviceRegistration) (p : Presented) (d : Db)
      → IsValid d
      → find (by_id company id) d.registrations ≡ some g
      → (o : Option DeviceRegistration) → (disable r company trim new_token id d).0 ≡ ok o
      → (g.status ≡ active)
        × ((assert_can_clock_in r company trim new_token g.employee_id p
              (disable r company trim new_token id d).1).0
            ≡ err (forbidden "This device is not registered."))
  unfolding disable
  clock_in-disable id g p d valid found o returned =
      elim (looked_up r company trim new_token id d) [
        | inl (e, stops, fine) ↦ absurd (ground (arith, stops, returned))
        | inr (h, goes, found') ↦ elim (Bool-cases (is_status h.status active)) [
          | inr off ↦ absurd (ground (arith, goes, off, returned))
          | inl live ↦
              let h≡g : h ≡ g = ground (arith, found, found') in
              let on : is_status g.status active ≡ true = ground (arith, h≡g, live) in
              let f : DeviceRegistration → DeviceRegistration =
                λ g. record g { status = Status.disabled } in
              let (ran, after) =
                update_one r company id f g d valid found (λ h. (refl, refl, refl)) (λ on. cc) in
              let at_id = find-holds (by_id company id) d.registrations g found in
              let key : active_key company g.employee_id g ≡ true = ground (arith, at_id, on) in
              let gone =
                find-update_gone (by_id company id) (active_key company g.employee_id) f
                  d.registrations g (valid.ids company id) (valid.actives company g.employee_id)
                  found key (ground arith) in
              let rows : (disable r company trim new_token id d).1.registrations
                  ≡ update (by_id company id) f d.registrations =
                ground (arith, goes, live, ran) in
              (
                ground (arith, on),
                closed r company trim new_token g.employee_id p
                    (disable r company trim new_token id d).1 (rw rows gone),
              )
        ]
      ]

  -- Once `registerMine` has returned, the gate lets the employee in, at any later time, with the token
  -- that was returned and the fingerprint that was sent, and answers with the new registration.
  pub clock_in-register_mine :
      (at : ℕ) (dto : RegisterMyDeviceDto) (e : Employee) (s : MyDeviceStatus) (d : Db)
      → (my_employee r company trim new_token d).0 ≡ ok (some e)
      → (register_mine r company trim new_token dto d).0 ≡ ok s
      → (assert_can_clock_in
          (record r { now = at })
          company
          trim
          new_token
          e.id
          (record { device_token = s.device_token; fingerprint = dto.fingerprint })
          (register_mine r company trim new_token dto d).1).0
        ≡ ok (r.uuid d.drawn)
  unfolding register_mine find_active_for_employee create get_company_settings add_log
  clock_in-register_mine at dto e s d me returned =
      let (o, mine) = employee_known r company trim new_token d in
      let (b, require) = require_known r company trim new_token d in
      let own : o ≡ some e = ground (arith, mine, me) in
      elim (Option-cases (find (active_key company e.id) d.registrations)) [
        | inr (g, bound) ↦ absurd (ground (arith, mine, own, bound, returned))
        | inl alone ↦ elim (Bool-cases (b && not (is_given dto.fingerprint))) [
          | inl missing ↦ absurd (ground (arith, mine, own, alone, require, missing, returned))
          | inr checked ↦
              let d' : Db = (register_mine r company trim new_token dto d).1 in
              let g : DeviceRegistration =
                my_registration r company trim new_token e.id dto (r.uuid d.drawn) in
              let rows : d'.registrations ≡ g ∷ d.registrations =
                ground (arith, mine, own, alone, require, checked) in
              let settings : d'.settings ≡ d.settings =
                ground (arith, mine, own, alone, require, checked) in
              let token : s.device_token ≡ some g.device_token =
                ground (arith, mine, own, alone, require, checked, returned) in
              let p : Presented = record {
                device_token = s.device_token;
                fingerprint = dto.fingerprint;
              } in
              let in_table : find (active_key company e.id) d'.registrations ≡ some g =
                rw (rows, ==_refl company, ==_refl e.id) refl in
              let equal : same_text (some g.device_token) (some g.device_token) ≡ true =
                (str_eq_iff g.device_token g.device_token).1 refl in
              admitted (record r { now = at }) company trim new_token e.id p g b d' in_table
                (ground (arith, require, settings)) (rw (token, equal) (ground arith))
                (verified b dto.fingerprint checked)
        ]
      ]
    where
      verified :
          (b : Bool) (f : Option String)
          → (b && not (is_given f)) ≡ false
          → (b && (not (is_given f) || not (same_text f f))) ≡ false
      verified b none checked = checked
      verified b (some t) checked = rw ((str_eq_iff t t).1 refl) (ground arith)
