-- ===== src/Database/Laws.antt =====
-- How the reads of a table see its writes.
use vellora_backend.Prelude.{
  ◌≡◌, refl, inl, inr, Bool, true, false, none, some, List, [], ◌∷◌, arith, if◌then◌else◌,
  Bool-cases,
}
use mathlib.Core.Option
use vellora_backend.Database.{find, select, update, delete}

module _ {ℓ} {A : Type ℓ} (p q : A → Bool) (f : A → A) where
  -- A write at rows that a query does not read, and that it does not turn into such rows.
  pub find-update_other :
      (t : List A)
      → ((r : A) → p r ≡ true → q r ≡ false)
      → ((r : A) → p r ≡ true → q (f r) ≡ false)
      → find q (update p f t) ≡ find q t
  find-update_other [] before after = refl
  find-update_other (r ∷ t) before after = elim (Bool-cases (p r)) [
    | inl hit ↦ rw (hit, before r hit, after r hit) (find-update_other t before after)
    | inr miss ↦ rw miss (ground (arith, find-update_other t before after))
  ]

  -- The rows that a write does not touch are the same before and after it.
  pub select-update_other :
      (t : List A)
      → ((r : A) → p r ≡ true → q r ≡ false)
      → ((r : A) → p r ≡ true → q (f r) ≡ false)
      → select q (update p f t) ≡ select q t
  select-update_other [] before after = refl
  select-update_other (r ∷ t) before after = elim (Bool-cases (p r)) [
    | inl hit ↦ rw (hit, before r hit, after r hit) (select-update_other t before after)
    | inr miss ↦ rw miss (ground (arith, select-update_other t before after))
  ]

  -- A write that does not move a row in or out of a query.
  pub find-update :
      (t : List A)
      → ((r : A) → q (f r) ≡ q r)
      → find q (update p f t) ≡ Option.map (λ r. if p r then f r else r) (find q t)
  find-update [] same = refl
  find-update (r ∷ t) same = elim (Bool-cases (p r)) [
    | inl hit ↦ rw (hit, same r) (ground (arith, find-update t same))
    | inr miss ↦ rw miss (ground (arith, find-update t same))
  ]

module _ {ℓ} {A : Type ℓ} (p q : A → Bool) where
  pub find-delete_other :
      (t : List A) → ((r : A) → p r ≡ true → q r ≡ false) → find q (delete p t) ≡ find q t
  find-delete_other [] apart = refl
  find-delete_other (r ∷ t) apart = elim (Bool-cases (p r)) [
    | inl hit ↦ rw (hit, apart r hit) (find-delete_other t apart)
    | inr miss ↦ rw miss (ground (arith, find-delete_other t apart))
  ]

  pub select-delete_other :
      (t : List A) → ((r : A) → p r ≡ true → q r ≡ false) → select q (delete p t) ≡ select q t
  select-delete_other [] apart = refl
  select-delete_other (r ∷ t) apart = elim (Bool-cases (p r)) [
    | inl hit ↦ rw (hit, apart r hit) (select-delete_other t apart)
    | inr miss ↦ rw miss (ground (arith, select-delete_other t apart))
  ]

module _ {ℓ} {A : Type ℓ} (p : A → Bool) where
  -- A row that a query returns passes its test.
  pub find-holds : (t : List A) (r : A) → find p t ≡ some r → p r ≡ true
  find-holds [] r e = cc
  find-holds (x ∷ t) r e = ground (arith, find-holds t r)

  -- A deletion of nothing.
  pub delete-none : (t : List A) → find p t ≡ none → delete p t ≡ t
  delete-none [] e = refl
  delete-none (r ∷ t) e = ground (arith, delete-none t)

  pub update-none : (f : A → A) (t : List A) → find p t ≡ none → update p f t ≡ t
  update-none f [] e = refl
  update-none f (r ∷ t) e = ground (arith, update-none f t)
