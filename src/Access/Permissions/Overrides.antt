-- ===== src/Access/Permissions/Overrides.antt =====
-- What `setOverrides` and `getMatrix` of permissions/permissions.service.ts mean for `can`.
use vellora_backend.Prelude.{
  ℕ, ◌≡◌, refl, sym, Bool, true, false, ◌&&◌, Option, none, some, String, List, [], ◌∷◌, ◌==◌,
  str_eq, str_eq_iff, if◌then◌else◌, is_some, arith, Bool-cases, Option-cases, inl, inr, ◌∙◌,
}
use vellora_backend.Database.{find, update}
use vellora_backend.Database.Laws.{find-update, find-update_other, find-holds}
use vellora_backend.Database.Totals.{IsUnique, IsUnique-update}
use vellora_backend.Access.Principal.{
  MembershipRole, owner, hr, area_manager, store_manager, employee,
}
use vellora_backend.Access.Guards.{same_role}
use vellora_backend.Access.Permissions.{
  Permission, PermissionInput, permission_key, action_of, upsert, upsert_all,
}

same_role_eq : (a b : MembershipRole) → same_role a b ≡ true → a ≡ b
same_role_eq a b e = ground arith

same_role_refl : (a : MembershipRole) → same_role a a ≡ true
same_role_refl owner = refl
same_role_refl hr = refl
same_role_refl area_manager = refl
same_role_refl store_manager = refl
same_role_refl employee = refl

-- The answer that the first row of a query stores.
abbrev pub stored : (Permission → Bool) → List Permission → Option Bool
stored p t = elim (find p t) [ none ↦ none | some r ↦ some r.allowed ]

-- An entry that a batch for `company` sends names the cell that is asked for.
abbrev pub names : ℕ → ℕ → MembershipRole → String → String → PermissionInput → Bool
names company c role resource action entry =
    company == c
    && same_role entry.role role
    && str_eq entry.resource resource
    && str_eq (action_of entry) action

-- The value of the last entry of a batch that names the cell.
abbrev pub last_entry :
    ℕ → ℕ → MembershipRole → String → String → List PermissionInput → Option Bool
last_entry company c role resource action [] = none
last_entry company c role resource action (entry ∷ entries) =
    let rest = last_entry company c role resource action entries in
    elim rest [
      | some a ↦ some a
      | none ↦ if names company c role resource action entry then some entry.allowed else none
    ]

-- An upsert seen by a query for its own key, and by a query for other rows.
module _ (key : Permission → Bool) (a : Bool) (row : Permission) where
  abbrev put : List Permission → List Permission
  put t = if is_some (find key t) then update key (λ p. record p { allowed = a }) t else row ∷ t

  stored-put_same :
      (t : List Permission)
      → ((r : Permission) → key (record r { allowed = a }) ≡ key r)
      → key row ≡ true
      → row.allowed ≡ a
      → stored key (put t) ≡ some a
  stored-put_same t keeps own value = elim (Option-cases (find key t)) [
    | inl new ↦ ground (arith, new, own, value)
    | inr (r, old) ↦
        let hit : key r ≡ true = find-holds key t r old in
        let found = find-update key key (λ p. record p { allowed = a }) t keeps in
        ground (arith, old, found, hit)
  ]

  stored-put_other :
      (q : Permission → Bool) (t : List Permission)
      → ((r : Permission) → key r ≡ true → q r ≡ false)
      → ((r : Permission) → key r ≡ true → q (record r { allowed = a }) ≡ false)
      → q row ≡ false
      → stored q (put t) ≡ stored q t
  stored-put_other q t before after own = elim (Option-cases (find key t)) [
    | inl new ↦ ground (arith, new, own)
    | inr (r, old) ↦
        ground (arith, old, find-update_other key q (λ p. record p { allowed = a }) t before after)
  ]

  find-none_fewer :
      (q : Permission → Bool) (t : List Permission)
      → ((r : Permission) → q r ≡ true → key r ≡ true)
      → find key t ≡ none
      → find q t ≡ none
  find-none_fewer q [] only e = refl
  find-none_fewer q (r ∷ t) only e = elim (Bool-cases (q r)) [
    | inl hit ↦ ground (arith, only r hit)
    | inr miss ↦ rw miss (find-none_fewer q t only (ground arith))
  ]

  put-IsUnique :
      (q : Permission → Bool) (t : List Permission)
      → ((r : Permission) → q (record r { allowed = a }) ≡ q r)
      → (q row ≡ true → (r : Permission) → q r ≡ true → key r ≡ true)
      → IsUnique q t
      → IsUnique q (put t)
  put-IsUnique q t keeps only one = elim (Option-cases (find key t)) [
    | inl new ↦ rw new (λ h. find-none_fewer q t (only h) new, one)
    | inr (r, old) ↦ rw old (IsUnique-update q key (λ p. record p { allowed = a }) t keeps one)
  ]

own_key : (r : Permission) → permission_key r.company_id r.role r.resource r.action r ≡ true
own_key r =
    rw
      (
        same_role_refl r.role,
        (str_eq_iff r.resource r.resource).1 refl,
        (str_eq_iff r.action r.action).1 refl,
      )
      (ground arith)

module _ (c : ℕ) (role : MembershipRole) (resource action : String) where
  key_eq :
      (r : Permission)
      → permission_key c role resource action r ≡ true
      → (r.company_id ≡ c) × (r.role ≡ role) × (r.resource ≡ resource) × (r.action ≡ action)
  key_eq r e = (
    ground arith,
    same_role_eq r.role role (ground arith),
    (str_eq_iff r.resource resource).0 (ground arith),
    (str_eq_iff r.action action).0 (ground arith),
  )

module _ (company c : ℕ) (role : MembershipRole) (resource action : String) where
  named_eq :
      (entry : PermissionInput)
      → names company c role resource action entry ≡ true
      → (company ≡ c)
        × (entry.role ≡ role)
        × (entry.resource ≡ resource)
        × (action_of entry ≡ action)
  named_eq entry e = (
    ground arith,
    same_role_eq entry.role role (ground arith),
    (str_eq_iff entry.resource resource).0 (ground arith),
    (str_eq_iff (action_of entry) action).0 (ground arith),
  )

  named :
      (entry : PermissionInput)
      → company ≡ c
      → entry.role ≡ role
      → entry.resource ≡ resource
      → action_of entry ≡ action
      → names company c role resource action entry ≡ true
  named entry company_eq role_eq resource_eq action_eq =
      let roles : same_role entry.role role ≡ true = rw role_eq (same_role_refl role) in
      let resources : str_eq entry.resource resource ≡ true =
        (str_eq_iff entry.resource resource).1 resource_eq in
      let actions : str_eq (action_of entry) action ≡ true =
        (str_eq_iff (action_of entry) action).1 action_eq in
      rw (roles, resources, actions) (ground arith)

  -- The rows under an entry's key are not those of a cell that the entry does not name.
  apart :
      (entry : PermissionInput) (r : Permission)
      → names company c role resource action entry ≡ false
      → permission_key company entry.role entry.resource (action_of entry) r ≡ true
      → permission_key c role resource action r ≡ false
  apart entry r off key = elim (Bool-cases (permission_key c role resource action r)) [
    | inr other ↦ other
    | inl same ↦
        let (company_eq, role_eq, resource_eq, action_eq) = key_eq c role resource action r same in
        let (company_eq', role_eq', resource_eq', action_eq') =
          key_eq company entry.role entry.resource (action_of entry) r key in
        let on : names company c role resource action entry ≡ true =
          named entry (sym company_eq' ∙ company_eq) (sym role_eq' ∙ role_eq)
            (sym resource_eq' ∙ resource_eq) (sym action_eq' ∙ action_eq) in
        cc
  ]

  abbrev row_of : PermissionInput → Permission
  row_of entry = record {
    company_id = company;
    role = entry.role;
    resource = entry.resource;
    action = action_of entry;
    allowed = entry.allowed;
  }

  stored-upsert :
      (entry : PermissionInput) (t : List Permission)
      → stored (permission_key c role resource action) (upsert company entry t) ≡ (
          if names company c role resource action entry
          then some entry.allowed
          else stored (permission_key c role resource action) t)
  unfolding upsert
  stored-upsert entry t = elim (Bool-cases (names company c role resource action entry)) [
    | inl on ↦
        let (company_eq, role_eq, resource_eq, action_eq) = named_eq entry on in
        rw (on, ← company_eq, ← role_eq, ← resource_eq, ← action_eq)
          (stored-put_same (permission_key company entry.role entry.resource (action_of entry))
            entry.allowed (row_of entry) t (λ r. refl) (own_key (row_of entry)) refl)
    | inr off ↦ rw off (
        stored-put_other (permission_key company entry.role entry.resource (action_of entry))
          entry.allowed (row_of entry) (permission_key c role resource action) t
          (λ r key. apart entry r off key) (λ r key. apart entry r off key)
          (apart entry (row_of entry) off (own_key (row_of entry))))
  ]

  pub stored-upsert_all :
      (entries : List PermissionInput) (t : List Permission)
      → stored (permission_key c role resource action) (upsert_all company entries t)
        ≡ elim (last_entry company c role resource action entries) [
          | some a ↦ some a
          | none ↦ stored (permission_key c role resource action) t
        ]
  unfolding upsert_all
  stored-upsert_all [] t = refl
  stored-upsert_all (entry ∷ entries) t =
      let ih = stored-upsert_all entries (upsert company entry t) in
      ground (arith, ih, stored-upsert entry t)

  upsert-IsUnique :
      (entry : PermissionInput) (t : List Permission)
      → IsUnique (permission_key c role resource action) t
      → IsUnique (permission_key c role resource action) (upsert company entry t)
  unfolding upsert
  upsert-IsUnique entry t one =
      put-IsUnique (permission_key company entry.role entry.resource (action_of entry))
        entry.allowed (row_of entry) (permission_key c role resource action) t (λ r. refl) only one
    where
      only :
          permission_key c role resource action (row_of entry) ≡ true
          → (r : Permission) → permission_key c role resource action r ≡ true
          → permission_key company entry.role entry.resource (action_of entry) r ≡ true
      only h r e =
          let (company_eq, role_eq, resource_eq, action_eq) = key_eq c role resource action r e in
          let (company_eq', role_eq', resource_eq', action_eq') =
            key_eq c role resource action (row_of entry) h in
          rw (company_eq', role_eq', resource_eq', action_eq') e

  pub upsert_all-IsUnique :
      (entries : List PermissionInput) (t : List Permission)
      → IsUnique (permission_key c role resource action) t
      → IsUnique (permission_key c role resource action) (upsert_all company entries t)
  unfolding upsert_all
  upsert_all-IsUnique [] t one = one
  upsert_all-IsUnique (entry ∷ entries) t one =
      upsert_all-IsUnique entries (upsert company entry t) (upsert-IsUnique entry t one)
