-- ===== src/Database/Totals.antt =====
-- Sums over the rows of a table, and writes at the one row that a query can find.
use vellora_backend.Prelude.{
  ℕ, ◌+◌, ◌≤◌, ◌≡◌, refl, Bool, true, none, some, List, [], ◌∷◌, arith, Bool-cases, inl, inr, sym,
  ◌∙◌,
}
use vellora_backend.Database.{find, update}
use vellora_backend.Database.Laws.{update-none}

module _ {ℓ} {A : Type ℓ} where
  abbrev pub total : (A → ℕ) → List A → ℕ
  total w [] = 0
  total w (r ∷ t) = w r + total w t

  -- A query that at most one row passes.
  abbrev pub IsUnique : (A → Bool) → List A → Type ℓ
  IsUnique p [] = Unit
  IsUnique p (r ∷ t) = (p r ≡ true → find p t ≡ none) × IsUnique p t

  pub total-update :
      (w : A → ℕ) (p : A → Bool) (f : A → A) (t : List A) (u : A)
      → IsUnique p t
      → find p t ≡ some u
      → total w (update p f t) + w u ≡ total w t + w (f u)
  total-update w p f [] u one e = cc
  total-update w p f (r ∷ t) u one e = elim (Bool-cases (p r)) [
    | inl hit ↦
        let same : r ≡ u = ground (arith, hit) in
        rw (hit, update-none p f t (one.0 hit), same) (omega arith)
    | inr miss ↦ rw miss (omega (arith, total-update w p f t u one.1 (ground (arith, miss))))
  ]

  -- A found row is one of those that are summed.
  pub total-find-le :
      (w : A → ℕ) (p : A → Bool) (t : List A) (u : A) → find p t ≡ some u → w u ≤ total w t
  total-find-le w p [] u e = cc
  total-find-le w p (r ∷ t) u e = elim (Bool-cases (p r)) [
    | inl hit ↦ let same : r ≡ u = ground (arith, hit) in rw same (omega arith)
    | inr miss ↦ omega (arith, total-find-le w p t u (ground (arith, miss)))
  ]

  find-update-none :
      (p : A → Bool) (q : A → Bool) (f : A → A) (t : List A)
      → ((r : A) → p (f r) ≡ p r)
      → find p t ≡ none
      → find p (update q f t) ≡ none
  find-update-none p q f [] same e = refl
  find-update-none p q f (r ∷ t) same e = elim (Bool-cases (q r)) [
    | inl hit ↦ rw (hit, same r) (ground (arith, find-update-none p q f t same))
    | inr miss ↦ rw miss (ground (arith, find-update-none p q f t same))
  ]

  pub IsUnique-update :
      (p : A → Bool) (q : A → Bool) (f : A → A) (t : List A)
      → ((r : A) → p (f r) ≡ p r)
      → IsUnique p t
      → IsUnique p (update q f t)
  IsUnique-update p q f [] same one = tt
  IsUnique-update p q f (r ∷ t) same one = elim (Bool-cases (q r)) [
    | inl hit ↦
        rw (hit, same r)
          (λ h. find-update-none p q f t same (one.0 h), IsUnique-update p q f t same one.1)
    | inr miss ↦
        rw miss (λ h. find-update-none p q f t same (one.0 h), IsUnique-update p q f t same one.1)
  ]

  -- A row that any query finds is the one that its own key finds.
  pub IsUnique-find :
      (p q : A → Bool) (t : List A) (a : A)
      → IsUnique p t
      → find q t ≡ some a
      → p a ≡ true
      → find p t ≡ some a
  IsUnique-find p q [] a one e pa = cc
  IsUnique-find p q (r ∷ t) a one e pa = elim (Bool-cases (q r)) [
    | inl hit ↦
        let same : r ≡ a = ground (arith, hit) in
        let passes : p r ≡ true = rw same pa in rw (passes, same)
    | inr miss ↦
        let later : find p t ≡ some a = IsUnique-find p q t a one.1 (ground (arith, miss)) pa in
        elim (Bool-cases (p r)) [
          | inl clash ↦ absurd (none-ne-some a (sym (one.0 clash) ∙ later))
          | inr apart ↦ rw apart later
        ]
  ]
    where
      none-ne-some : (a : A) → none ≡ some a → ⊥
      none-ne-some a e = cc
