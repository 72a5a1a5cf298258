-- ===== src/Access/Permissions/Matrix.antt =====
-- `can`, `setOverrides` and `getMatrix` of permissions/permissions.service.ts answer alike.
use vellora_backend.Prelude.{
  ℕ, ◌≡◌, refl, true, Option, String, List, [], ◌∷◌, ◌++◌, map, ◌==◌, if◌then◌else◌, is_some, arith,
  Bool-cases, inl, inr, All,
}
use mathlib.Core.Option.{get_or}
use vellora_backend.Database.{find, select}
use vellora_backend.Database.Totals.{IsUnique}
use vellora_backend.Access.Principal.{MembershipRole}
use vellora_backend.Access.Permissions.{
  Permission, PermissionInput, MatrixCell, default, override, Db, permission_key, map_get, can,
  cell, cells, get_matrix, set_overrides, access, modules, membership_roles,
}
use vellora_backend.Access.Permissions.Overrides.{
  stored, last_entry, stored-upsert_all, upsert_all-IsUnique,
}

-- The unique constraint of the table.
abbrev pub IsKeyed : List Permission → Type 0
IsKeyed t =
    (c : ℕ) (role : MembershipRole) (resource action : String)
    → IsUnique (permission_key c role resource action) t

-- After `setOverrides`, `can` answers with the last entry of the batch that names the cell, and with
-- what it answered before when no entry does: for this company and every other one, for every role,
-- resource and action. The unique constraint of the table still holds.
pub can-set_overrides :
    (company c : ℕ) (actor : Option ℕ) (entries : List PermissionInput) (role : MembershipRole)
    (resource action : String) (d : Db)
    → IsKeyed d.permissions
    → (can c role resource action (set_overrides company actor entries d).1
        ≡ get_or (last_entry company c role resource action entries) (can c role resource action d))
      × IsKeyed (set_overrides company actor entries d).1.permissions
unfolding can set_overrides
can-set_overrides company c actor entries role resource action d keyed = (
  ground (arith, stored-upsert_all company c role resource action entries d.permissions),
  λ c role resource action.
      upsert_all-IsUnique company c role resource action entries d.permissions
        (keyed c role resource action),
)

-- A cell of the matrix shows the answer of `can`, and says whether a row of the table stores it.
abbrev pub IsAnswer : ℕ → Db → MatrixCell → Type 0
IsAnswer company d m =
    (m.allowed ≡ can company m.role m.resource m.action d)
    × (m.source ≡ (
        if is_some (find (permission_key company m.role m.resource m.action) d.permissions)
        then override
        else default))

module _ (company : ℕ) (d : Db) (keyed : IsKeyed d.permissions) where
  own_rows :
      (role : MembershipRole) (resource action : String) (t : List Permission)
      → IsUnique (permission_key company role resource action) t
      → map_get
          (permission_key company role resource action)
          (select (λ p. p.company_id == company) t)
        ≡ stored (permission_key company role resource action) t
  own_rows role resource action [] one = refl
  own_rows role resource action (r ∷ t) one =
      let ih = own_rows role resource action t one.1 in
      elim (Bool-cases (permission_key company role resource action r)) [
        | inl hit ↦
            let own : (r.company_id == company) ≡ true = ground (arith, hit) in
            ground (arith, own, ih, one.0 hit, hit)
        | inr miss ↦ elim (Bool-cases (r.company_id == company)) [
          | inl own ↦ ground (arith, own, ih, miss)
          | inr foreign ↦ ground (arith, foreign, ih, miss)
        ]
      ]

  cell-IsAnswer :
      (role : MembershipRole) (module_key : String)
      → IsAnswer company d
          (cell company (select (λ p. p.company_id == company) d.permissions) role module_key)
  unfolding can
  cell-IsAnswer role module_key =
      let found =
        own_rows role module_key access d.permissions (keyed company role module_key access) in
      (ground (arith, found), ground (arith, found))

  row-IsAnswer :
      (role : MembershipRole) (keys : List String) (rest : List MatrixCell)
      → All (IsAnswer company d) rest
      → All (IsAnswer company d) (
          map (cell company (select (λ p. p.company_id == company) d.permissions) role) keys
          ++ rest)
  row-IsAnswer role [] rest holds = holds
  row-IsAnswer role (key ∷ keys) rest holds =
      (cell-IsAnswer role key, row-IsAnswer role keys rest holds)

  cells-IsAnswer :
      (roles : List MembershipRole)
      → All
          (IsAnswer company d)
          (cells company (select (λ p. p.company_id == company) d.permissions) roles)
  cells-IsAnswer [] = tt
  cells-IsAnswer (role ∷ roles) =
      row-IsAnswer role modules
        (cells company (select (λ p. p.company_id == company) d.permissions) roles)
        (cells-IsAnswer roles)

  -- Every cell of `getMatrix` shows what `can` answers for its role, resource and action, and its
  -- source is an override exactly when the table has a row for the cell, if the table has no two rows
  -- under one key.
  pub get_matrix-IsAnswer : All (IsAnswer company d) (get_matrix company d)
  unfolding get_matrix
  get_matrix-IsAnswer = cells-IsAnswer membership_roles
