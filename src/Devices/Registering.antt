-- ===== src/Devices/Registering.antt =====
-- `registerMine` and `adminRegister` of devices/device-registration.service.ts keep the table valid.
use vellora_backend.Prelude.{
  ℕ, suc, Bool, false, not, ◌&&◌, Option, none, String, ◌∷◌, ◌==◌, is_value, arith, ◌≡◌, refl,
  Bool-cases, Option-cases, inl, inr,
}
use vellora_backend.Nest.{ok}
use vellora_backend.Database.{find}
use vellora_backend.Access.Principal.{Request, scoped_store_ids, is_out_of_scope, current_user_id}
use vellora_backend.Devices.Model.{
  DeviceRegistration, Db, Employee, active, by_id, active_key, find_active_for_employee, create,
  get_company_settings, employee_by_id, employee_by_user,
}
use vellora_backend.Devices.Service.{
  register_mine, admin_register, my_registration, admin_registration, my_employee,
  assert_store_in_scope,
}
use vellora_backend.Devices.Views.{RegisterMyDeviceDto, AdminRegisterDto, is_given}
use vellora_backend.Devices.OneActive.{IsValid, Keeps, Keeps-rows, add_one, is_refused}

module _ (r : Request) (company : ℕ) (trim : String → String) (new_token : String) where
  -- `my_employee` reads only, and never fails.
  pub employee_known :
      (d : Db) → (o : Option Employee) × (my_employee r company trim new_token d ≡ (ok o, d))
  unfolding my_employee employee_by_user
  employee_known d = elim (Option-cases (current_user_id r.user)) [
    | inl anonymous ↦ (none, ground (arith, anonymous))
    | inr (u, known) ↦ (
      find (λ e. e.company_id == company && is_value u e.user_id) d.employees,
      ground (arith, known),
    )
  ]

  pub require_known : (d : Db) → (b : Bool) × (get_company_settings r company d ≡ (ok b, d))
  unfolding get_company_settings
  require_known d = (_, refl)

  added :
      (row : ℕ → DeviceRegistration) (d : Db)
      → IsValid d
      → (row (r.uuid d.drawn)).company_id ≡ company
      → (row (r.uuid d.drawn)).id ≡ r.uuid d.drawn
      → (row (r.uuid d.drawn)).status ≡ active
      → find (by_id company (r.uuid d.drawn)) d.registrations ≡ none
      → find (active_key company (row (r.uuid d.drawn)).employee_id) d.registrations ≡ none
      → (create r company row d ≡ (
        ok (row (r.uuid d.drawn)),
        record d { registrations = row (r.uuid d.drawn) ∷ d.registrations; drawn = suc d.drawn },
      ))
        × IsValid (record d {
          registrations = row (r.uuid d.drawn) ∷ d.registrations;
          drawn = suc d.drawn;
        })
  unfolding create
  added row d valid own same on fresh alone =
      let g : DeviceRegistration = row (r.uuid d.drawn) in
      (ground (arith, alone, own, on), add_one r company g d _ valid own (rw same fresh) alone refl)

  -- `registerMine` leaves at most one active registration per employee, in every outcome, and the
  -- unique index refuses none of its writes, if the id that the database draws is new.
  pub register_mine-Keeps :
      (dto : RegisterMyDeviceDto) (d : Db)
      → IsValid d
      → find (by_id company (r.uuid d.drawn)) d.registrations ≡ none
      → Keeps (register_mine r company trim new_token dto d)
  unfolding register_mine find_active_for_employee
  register_mine-Keeps dto d valid fresh =
      let (o, mine) = employee_known d in
      let (b, require) = require_known d in
      elim (Option-cases o) [
        | inl nobody ↦ unchanged (ground (arith, mine, nobody)) (ground (arith, mine, nobody))
        | inr (e, me) ↦ elim (Option-cases (find (active_key company e.id) d.registrations)) [
          | inr (g, bound) ↦
              unchanged (ground (arith, mine, me, bound)) (ground (arith, mine, me, bound))
          | inl alone ↦ elim (Bool-cases (b && not (is_given dto.fingerprint))) [
            | inl missing ↦
                unchanged (ground (arith, mine, me, alone, require, missing))
                  (ground (arith, mine, me, alone, require, missing))
            | inr checked ↦
                let (ran, after) =
                  added (my_registration r company trim new_token e.id dto) d valid refl refl refl
                    fresh alone in
                Keeps-rows (register_mine r company trim new_token dto d) _ after
                  (ground (arith, mine, me, alone, require, checked, ran))
                  (ground (arith, mine, me, alone, require, checked, ran))
          ]
        ]
      ]
    where
      unchanged :
          (register_mine r company trim new_token dto d).1 ≡ d
          → is_refused (register_mine r company trim new_token dto d).0 ≡ false
          → Keeps (register_mine r company trim new_token dto d)
      unchanged same fine =
          Keeps-rows (register_mine r company trim new_token dto d) d valid (rw same refl) fine

  -- `adminRegister` leaves at most one active registration per employee, in every outcome, and the
  -- unique index refuses none of its writes, if the id that the database draws is new.
  pub admin_register-Keeps :
      (dto : AdminRegisterDto) (d : Db)
      → IsValid d
      → find (by_id company (r.uuid d.drawn)) d.registrations ≡ none
      → Keeps (admin_register r company trim new_token dto d)
  unfolding admin_register find_active_for_employee employee_by_id assert_store_in_scope
  admin_register-Keeps dto d valid fresh =
      elim (Option-cases
        (find (λ e. e.company_id == company && e.id == dto.employee_id) d.employees)) [
          | inl nobody ↦ unchanged (ground (arith, nobody)) (ground (arith, nobody))
          | inr (e, known) ↦
              elim (Bool-cases (is_out_of_scope (scoped_store_ids r.user) e.primary_store_id)) [
                | inl out ↦ unchanged (ground (arith, known, out)) (ground (arith, known, out))
                | inr reach ↦
                    elim (Option-cases
                      (find (active_key company dto.employee_id) d.registrations)) [
                        | inr (g, bound) ↦
                            unchanged (ground (arith, known, reach, bound))
                              (ground (arith, known, reach, bound))
                        | inl alone ↦
                            let (ran, after) =
                              added (admin_registration r company trim new_token dto) d valid refl
                                refl refl fresh alone in
                            Keeps-rows (admin_register r company trim new_token dto d) _ after
                              (ground (arith, known, reach, alone, ran))
                              (ground (arith, known, reach, alone, ran))
                      ]
              ]
        ]
    where
      unchanged :
          (admin_register r company trim new_token dto d).1 ≡ d
          → is_refused (admin_register r company trim new_token dto d).0 ≡ false
          → Keeps (admin_register r company trim new_token dto d)
      unchanged same fine =
          Keeps-rows (admin_register r company trim new_token dto d) d valid (rw same refl) fine
