-- ===== src/Database.antt =====
-- database/database.service.ts: tables as lists of rows, and what a handler may do to one inside
-- `withTenant`. A row carries the company that owns it, and the tests of a query name that company,
-- which stands for the row-level security that `withTenant` switches on.
pub mod Laws
pub mod Pairs
pub mod Totals
pub mod Unique
use vellora_backend.Prelude.{
  ℕ, suc, Bool, true, false, Option, none, some, List, [], ◌∷◌, if◌then◌else◌,
}

module _ {ℓ} {A : Type ℓ} where
  -- `findFirst({ where: p })`, in the order in which the table holds the rows.
  abbrev pub find : (A → Bool) → List A → Option A
  find p [] = none
  find p (r ∷ t) = if p r then some r else find p t

  -- `findMany({ where: p })`
  abbrev pub select : (A → Bool) → List A → List A
  select p [] = []
  select p (r ∷ t) = let rest = select p t in if p r then r ∷ rest else rest

  -- `update(...).set(f).where(p)`
  abbrev pub update : (A → Bool) → (A → A) → List A → List A
  update p f [] = []
  update p f (r ∷ t) = (if p r then f r else r) ∷ update p f t

  -- `delete(...).where(p)`
  abbrev pub delete : (A → Bool) → List A → List A
  delete p [] = []
  delete p (r ∷ t) = let rest = delete p t in if p r then rest else r ∷ rest

  -- The count of a select.
  abbrev pub count_where : (A → Bool) → List A → ℕ
  count_where p [] = 0
  count_where p (r ∷ t) = let rest = count_where p t in if p r then suc rest else rest

-- A column that an update sets to `undefined` stays as it was.
abbrev pub unless_undefined {ℓ} : {A : Type ℓ} → Option A → Option A → Option A
unless_undefined none old = old
unless_undefined (some x) old = some x
