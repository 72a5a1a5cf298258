-- ===== src/Devices/OneActive.antt =====
-- One active registration per employee, under every handler of devices/device-registration.service.ts.
use vellora_backend.Prelude.{
  ℕ, Bool, true, false, none, some, String, ◌∷◌, arith, ◌≡◌, refl, Bool-cases, Option-cases, inl,
  inr, ◌⊎◌,
}
use vellora_backend.Nest.{Result, ok, err, database_error, Exception, not_found, forbidden}
use vellora_backend.Database.{find, update}
use vellora_backend.Database.Laws.{find-holds}
use vellora_backend.Database.Totals.{IsUnique, IsUnique-update}
use vellora_backend.Database.Unique.{IsUnique-update_one}
use vellora_backend.Access.Principal.{Request, scoped_store_ids, is_out_of_scope}
use vellora_backend.Devices.Model.{
  DeviceRegistration, Db, Status, active, is_status, by_id, active_key, update_registration,
  find_active_for_employee,
}
use vellora_backend.Devices.Service.{disable, enable, get_registration, store_of}

-- The primary key of the table and its partial unique index.
pub record IsValid (d : Db) : Type 0 where
  pub ids : (c i : ℕ) → IsUnique (by_id c i) d.registrations
  pub actives : (c e : ℕ) → IsUnique (active_key c e) d.registrations

-- The database refused a statement.
abbrev pub is_refused : {A : Type 0} → Result A → Bool
is_refused (err database_error) = true
is_refused _ = false

-- A handler leaves a valid table, and the index never had to refuse one of its writes.
abbrev pub Keeps : {A : Type 0} → Result A × Db → Type 0
Keeps (r, d) = (is_refused r ≡ false) × IsValid d

pub Keeps-rows :
    {A : Type 0} (x : Result A × Db) (d : Db)
    → IsValid d
    → x.1.registrations ≡ d.registrations
    → is_refused x.0 ≡ false
    → Keeps x
Keeps-rows x d valid rows fine = (
  fine,
  record { ids = λ c i. rw rows (valid.ids c i); actives = λ c e. rw rows (valid.actives c e) },
)

module _ (r : Request) (company : ℕ) where
  -- A write at one row, which is made active only if the employee has no active row.
  pub update_one :
      (id : ℕ) (f : DeviceRegistration → DeviceRegistration) (g : DeviceRegistration) (d : Db)
      → IsValid d
      → find (by_id company id) d.registrations ≡ some g
      → ((g : DeviceRegistration)
          → ((f g).id ≡ g.id)
            × ((f g).company_id ≡ g.company_id)
            × ((f g).employee_id ≡ g.employee_id))
      → (is_status (f g).status active ≡ true
          → (is_status g.status active ≡ true)
            ⊎ (find (active_key company g.employee_id) d.registrations ≡ none))
      → ((update_registration r company id f d) ≡ (
        ok (some (f g)),
        record d { registrations = update (by_id company id) f d.registrations },
      ))
        × IsValid (record d { registrations = update (by_id company id) f d.registrations })
  unfolding update_registration
  update_one id f g d valid found same may =
      (ran, record { ids = ids_after; actives = actives_after })
    where
      own : g.company_id ≡ company
      own =
          let at_id = find-holds (by_id company id) d.registrations g found in ground (arith, at_id)

      ran : update_registration r company id f d ≡ (
        ok (some (f g)),
        record d { registrations = update (by_id company id) f d.registrations },
      )
      ran = elim (Bool-cases (is_status (f g).status active)) [
        | inr off ↦ ground (arith, found, off)
        | inl on ↦ elim (may on) [
          | inl before ↦ ground (arith, found, before)
          | inr alone ↦ ground (arith, found, alone)
        ]
      ]

      ids_after : (c i : ℕ) → IsUnique (by_id c i) (update (by_id company id) f d.registrations)
      ids_after c i =
          IsUnique-update (by_id c i) (by_id company id) f d.registrations
            (λ h. let (id_eq, company_eq, employee_eq) = same h in rw (id_eq, company_eq) refl)
            (valid.ids c i)

      now_active :
          (c e : ℕ)
          → active_key c e (f g) ≡ true
          → (active_key c e g ≡ true) ⊎ (find (active_key c e) d.registrations ≡ none)
      now_active c e on =
          let (id_eq, company_eq, employee_eq) = same g in
          let ec : company ≡ c = ground (arith, own, company_eq) in
          let ee : g.employee_id ≡ e = ground (arith, employee_eq) in
          elim (may (ground arith)) [
            | inl before ↦ inl (ground (arith, before, own))
            | inr alone ↦ inr (rw (← ec, ← ee) alone)
          ]

      actives_after :
          (c e : ℕ) → IsUnique (active_key c e) (update (by_id company id) f d.registrations)
      actives_after c e =
          IsUnique-update_one (by_id company id) (active_key c e) f d.registrations g
            (valid.ids company id) found (now_active c e) (valid.actives c e)

  pub add_one :
      (g : DeviceRegistration) (d d' : Db)
      → IsValid d
      → g.company_id ≡ company
      → find (by_id company g.id) d.registrations ≡ none
      → find (active_key company g.employee_id) d.registrations ≡ none
      → d'.registrations ≡ g ∷ d.registrations
      → IsValid d'
  add_one g d d' valid own fresh alone wrote = record {
    ids = λ c i. rw wrote (λ h. new_id c i h, valid.ids c i);
    actives = λ c e. rw wrote (λ h. new_active c e h, valid.actives c e);
  }
    where
      new_id : (c i : ℕ) → by_id c i g ≡ true → find (by_id c i) d.registrations ≡ none
      new_id c i h =
          let ec : company ≡ c = ground arith in
          let ei : g.id ≡ i = ground arith in rw (← ec, ← ei) fresh

      new_active :
          (c e : ℕ) → active_key c e g ≡ true → find (active_key c e) d.registrations ≡ none
      new_active c e h =
          let ec : company ≡ c = ground arith in
          let ee : g.employee_id ≡ e = ground arith in rw (← ec, ← ee) alone

module _ (r : Request) (company : ℕ) (trim : String → String) (new_token : String) where
  -- How `getRegistration` ends.
  pub looked_up :
      (id : ℕ) (d : Db)
      → ((e : Exception) × (get_registration r company trim new_token id d ≡ (err e, d))
          × (is_refused {A = Unit} (err e) ≡ false))
        ⊎ ((g : DeviceRegistration) × (get_registration r company trim new_token id d ≡ (ok g, d))
            × (find (by_id company id) d.registrations ≡ some g))
  unfolding get_registration
  looked_up id d = elim (Option-cases (find (by_id company id) d.registrations)) [
    | inl unknown ↦ inl (not_found "Device registration not found.", ground (arith, unknown), refl)
    | inr (g, found) ↦
        elim (Bool-cases
          (is_out_of_scope (scoped_store_ids r.user) (store_of r company trim new_token g d))) [
            | inl out ↦ inl (
              forbidden "That employee is outside your store scope.",
              ground (arith, found, out),
              refl,
            )
            | inr reach ↦ inr (g, ground (arith, found, reach), found)
          ]
  ]

  -- `disable` leaves at most one active registration per employee, in every outcome, and the unique
  -- index refuses none of its writes.
  pub disable-Keeps : (id : ℕ) (d : Db) → IsValid d → Keeps (disable r company trim new_token id d)
  unfolding disable
  disable-Keeps id d valid = elim (looked_up id d) [
    | inl (e, stops, fine) ↦
        Keeps-rows (disable r company trim new_token id d) d valid (ground (arith, stops))
          (ground (arith, stops, fine))
    | inr (g, goes, found) ↦
        let f : DeviceRegistration → DeviceRegistration =
          λ g. record g { status = Status.disabled } in
        let (ran, after) =
          update_one r company id f g d valid found (λ h. (refl, refl, refl)) (λ on. cc) in
        elim (Bool-cases (is_status g.status active)) [
          | inr off ↦
              Keeps-rows (disable r company trim new_token id d) d valid (ground (arith, goes, off))
                (ground (arith, goes, off))
          | inl on ↦
              Keeps-rows (disable r company trim new_token id d)
                (record d { registrations = update (by_id company id) f d.registrations }) after
                (ground (arith, goes, on, ran)) (ground (arith, goes, on, ran))
        ]
  ]

  -- `enable` leaves at most one active registration per employee, in every outcome, and the unique
  -- index refuses none of its writes.
  pub enable-Keeps : (id : ℕ) (d : Db) → IsValid d → Keeps (enable r company trim new_token id d)
  unfolding enable find_active_for_employee
  enable-Keeps id d valid = elim (looked_up id d) [
    | inl (e, stops, fine) ↦
        Keeps-rows (enable r company trim new_token id d) d valid (ground (arith, stops))
          (ground (arith, stops, fine))
    | inr (g, goes, found) ↦ elim (Bool-cases (is_status g.status Status.disabled)) [
      | inr off ↦
          Keeps-rows (enable r company trim new_token id d) d valid (ground (arith, goes, off))
            (ground (arith, goes, off))
      | inl on ↦ elim (Option-cases (find (active_key company g.employee_id) d.registrations)) [
        | inr (h, other) ↦
            Keeps-rows (enable r company trim new_token id d) d valid
              (ground (arith, goes, on, other)) (ground (arith, goes, on, other))
        | inl alone ↦
            let f : DeviceRegistration → DeviceRegistration = λ g. record g { status = active } in
            let (ran, after) =
              update_one r company id f g d valid found (λ h. (refl, refl, refl))
                (λ on. inr alone) in
            Keeps-rows (enable r company trim new_token id d)
              (record d { registrations = update (by_id company id) f d.registrations }) after
              (ground (arith, goes, on, alone, ran)) (ground (arith, goes, on, alone, ran))
      ]
    ]
  ]
