-- ===== src/Devices/Admitted.antt =====
-- Whom the gate of devices/device-registration.service.ts lets through.
use vellora_backend.Prelude.{
  ℕ, Bool, true, false, not, ◌&&◌, ◌||◌, Option, none, some, String, str_eq, str_eq_iff, arith, ◌≡◌,
  ◌≢◌, ◌↔◌, ◌⊎◌, refl, ap, ◌∙◌, Bool-cases, Option-cases, inl, inr, ◌==◌,
}
use vellora_backend.Nest.{ok}
use vellora_backend.Database.{find}
use vellora_backend.Access.Principal.{Request}
use vellora_backend.Devices.Model.{
  DeviceRegistration, Db, CompanySettings, active_key, find_active_for_employee,
  get_company_settings,
}
use vellora_backend.Devices.Service.{assert_can_clock_in, is_other_device}
use vellora_backend.Devices.Views.{Presented, is_given, same_text}
use vellora_backend.Devices.Gate.{admitted}

-- The client presents no token or the one of the registration, and, if the company requires it, the
-- fingerprint of the registration.
pub record IsFromDevice (company : ℕ) (d : Db) (p : Presented) (g : DeviceRegistration)
    : Type 0 where
  pub token :
      (p.device_token ≡ none)
      ⊎ ((p.device_token ≡ some "") ⊎ (p.device_token ≡ some g.device_token))
  pub print :
      (s : CompanySettings)
      → find (λ s. s.company_id == company) d.settings ≡ some s
      → s.require_device_fingerprint ≡ true
      → (f : String) × (f ≢ "") × (p.fingerprint ≡ some f) × (g.fingerprint ≡ some f)

module _ (r : Request) (company : ℕ) (trim : String → String) (new_token : String) where
  abbrev requires : Db → Bool
  requires d = elim (find (λ s. s.company_id == company) d.settings) [
    | none ↦ false
    | some s ↦ s.require_device_fingerprint
  ]

  abbrev is_other_print : Bool → Option String → Option String → Bool
  is_other_print b f h = b && (not (is_given f) || not (same_text f h))

  presented :
      (p : Presented) (g : DeviceRegistration) (t : Option String)
      → p.device_token ≡ t
      → (is_other_device r company trim new_token p g ≡ false) ↔ (
          (p.device_token ≡ none)
          ⊎ ((p.device_token ≡ some "") ⊎ (p.device_token ≡ some g.device_token)))
  presented p g none e = (λ h. inl e, λ h. rw e refl)
  presented p g (some t) e = (
    λ h. elim (Bool-cases (str_eq t "")) [
      | inl empty ↦ inr (inl (ground (arith, e, str_eq_iff t "", empty)))
      | inr given ↦ inr (inr (ground (arith, e, str_eq_iff t g.device_token, given, h)))
    ],
    λ h. elim h [
      | inl missing ↦ ground (arith, missing)
      | inr given ↦ elim given [
        | inl empty ↦ ground (arith, empty, str_eq_iff "" "")
        | inr same ↦ ground (arith, same, str_eq_iff g.device_token g.device_token)
      ]
    ],
  )

  printed :
      (f h : Option String)
      → (is_other_print true f h ≡ false) ↔ ((s : String) × (s ≢ "") × (f ≡ some s) × (h ≡ some s))
  printed none h =
      (λ e. absurd (ground (arith, e)), λ (s, some_text, f_eq, h_eq). absurd (ground (arith, f_eq)))
  printed (some s) none =
      (λ e. absurd (ground (arith, e)), λ (t, some_text, f_eq, h_eq). absurd (ground (arith, h_eq)))
  printed (some s) (some t) = (
    λ e. (s, ground (arith, e, str_eq_iff s ""), refl, ground (arith, e, str_eq_iff s t)),
    λ (u, some_text, f_eq, h_eq).
        ground (arith, some_text, f_eq, h_eq, str_eq_iff s "", str_eq_iff s t),
  )

  -- The gate lets an employee in, and answers with a registration, exactly when that is the active
  -- registration of the employee, the client presents its token or none, and, in a company that
  -- requires a fingerprint, the client presents its fingerprint.
  pub assert_can_clock_in-IsFromDevice :
      (employee i : ℕ) (p : Presented) (d : Db)
      → ((assert_can_clock_in r company trim new_token employee p d).0 ≡ ok i) ↔ (
          (g : DeviceRegistration) × (find (active_key company employee) d.registrations ≡ some g)
          × (g.id ≡ i)
          × IsFromDevice company d p g)
  unfolding assert_can_clock_in find_active_for_employee get_company_settings
  assert_can_clock_in-IsFromDevice employee i p d = (forth, back)
    where
      forth :
          (assert_can_clock_in r company trim new_token employee p d).0 ≡ ok i
          → (g : DeviceRegistration) × (find (active_key company employee) d.registrations ≡ some g)
            × (g.id ≡ i)
            × IsFromDevice company d p g
      forth passed = elim (Option-cases (find (active_key company employee) d.registrations)) [
        | inl absent ↦ absurd (ground (arith, absent, passed))
        | inr (g, found) ↦ elim (Bool-cases (is_other_device r company trim new_token p g)) [
          | inl other ↦ absurd (ground (arith, found, other, passed))
          | inr same ↦
              elim (Bool-cases (requires d && is_other_print true p.fingerprint g.fingerprint)) [
                | inl wrong ↦ absurd (ground (arith, found, same, wrong, passed))
                | inr right ↦ (
                  g,
                  found,
                  let ran =
                        admitted r company trim new_token employee p g (requires d) d found refl
                          same right in
                      ground (arith, ran, passed),
                  record {
                    token = (presented p g p.device_token refl).0 same;
                    print = λ s row needed.
                        (printed p.fingerprint g.fingerprint).0
                          (ground (arith, row, needed, right));
                  },
                )
              ]
        ]
      ]

      right :
          (g : DeviceRegistration)
          → IsFromDevice company d p g
          → (requires d && is_other_print true p.fingerprint g.fingerprint) ≡ false
      right g from = elim (Option-cases (find (λ s. s.company_id == company) d.settings)) [
        | inl lax ↦ ground (arith, lax)
        | inr (s, row) ↦ elim (Bool-cases s.require_device_fingerprint) [
          | inr lax ↦ ground (arith, row, lax)
          | inl needed ↦
              let same = (printed p.fingerprint g.fingerprint).1 (from.print s row needed) in
              ground (arith, row, needed, same)
        ]
      ]

      back :
          ((g : DeviceRegistration) × (find (active_key company employee) d.registrations ≡ some g)
            × (g.id ≡ i)
            × IsFromDevice company d p g)
          → (assert_can_clock_in r company trim new_token employee p d).0 ≡ ok i
      back (g, found, own, from) =
          admitted r company trim new_token employee p g (requires d) d found refl
            ((presented p g p.device_token refl).1 from.token) (right g from)
          ∙ ap ok own
