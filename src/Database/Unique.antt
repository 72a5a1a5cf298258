-- ===== src/Database/Unique.antt =====
-- Unique keys under a write at the row of one id.
use vellora_backend.Prelude.{
  ◌≡◌, refl, Bool, true, false, none, some, List, [], ◌∷◌, arith, Bool-cases, inl, inr, ◌⊎◌,
}
use vellora_backend.Database.{find, update}
use vellora_backend.Database.Laws.{update-none}
use vellora_backend.Database.Totals.{IsUnique}

module _ {ℓ} {A : Type ℓ} (p q : A → Bool) (f : A → A) where
  -- A query that finds nothing finds nothing after a write that makes no row for it.
  pub find-update_absent :
      (t : List A) (u : A)
      → IsUnique p t
      → find p t ≡ some u
      → q (f u) ≡ false
      → find q t ≡ none
      → find q (update p f t) ≡ none
  find-update_absent [] u one found off absent = refl
  find-update_absent (r ∷ t) u one found off absent = elim (Bool-cases (p r)) [
    | inl hit ↦
        let same : r ≡ u = ground (arith, hit) in
        rw (hit, update-none p f t (one.0 hit), same, off) (ground (arith, absent))
    | inr miss ↦
        let ih = find-update_absent t u one.1 (ground (arith, miss)) off (ground (arith, absent)) in
        rw miss (ground (arith, ih, absent))
  ]

  -- A found row that passes a query is found by it.
  pub find-some : (t : List A) (u : A) → find p t ≡ some u → q u ≡ true → find q t ≡ none → ⊥
  find-some [] u found on absent = cc
  find-some (r ∷ t) u found on absent = elim (Bool-cases (p r)) [
    | inl hit ↦
        let same : r ≡ u = ground (arith, hit) in
        let on' : q r ≡ true = rw same on in ground (arith, on')
    | inr miss ↦ find-some t u (ground (arith, miss)) on (ground (arith, absent))
  ]

  -- The written row may pass a query that it passed before, or that nothing passed.
  pub IsUnique-update_one :
      (t : List A) (u : A)
      → IsUnique p t
      → find p t ≡ some u
      → (q (f u) ≡ true → (q u ≡ true) ⊎ (find q t ≡ none))
      → IsUnique q t
      → IsUnique q (update p f t)
  IsUnique-update_one [] u one found may unique = tt
  IsUnique-update_one (r ∷ t) u one found may unique = elim (Bool-cases (p r)) [
    | inl hit ↦
        let same : r ≡ u = ground (arith, hit) in
        rw (hit, update-none p f t (one.0 hit)) (λ on. only same on, unique.1)
    | inr miss ↦
        let later : find p t ≡ some u = ground (arith, miss) in
        rw miss (
          λ on. find-update_absent t u one.1 later (off later on) (unique.0 on),
          IsUnique-update_one t u one.1 later (may' later) unique.1,
        )
  ]
    where
      only : r ≡ u → q (f r) ≡ true → find q t ≡ none
      only same on = elim (may (rw (← same) on)) [
        | inl before ↦ unique.0 (rw same before)
        | inr absent ↦ ground (arith, absent)
      ]

      off : find p t ≡ some u → q r ≡ true → q (f u) ≡ false
      off later on = elim (Bool-cases (q (f u))) [
        | inr off_after ↦ off_after
        | inl on_after ↦ elim (may on_after) [
          | inl before ↦ absurd (find-some t u later before (unique.0 on))
          | inr absent ↦ ground (arith, on, absent)
        ]
      ]

      may' : find p t ≡ some u → q (f u) ≡ true → (q u ≡ true) ⊎ (find q t ≡ none)
      may' later on = elim (may on) [
        | inl before ↦ inl before
        | inr absent ↦ inr (ground (arith, absent))
      ]

  -- The only row that passes a query stops passing it.
  pub find-update_gone :
      (t : List A) (u : A)
      → IsUnique p t
      → IsUnique q t
      → find p t ≡ some u
      → q u ≡ true
      → q (f u) ≡ false
      → find q (update p f t) ≡ none
  find-update_gone [] u one only found on off = refl
  find-update_gone (r ∷ t) u one only found on off = elim (Bool-cases (p r)) [
    | inl hit ↦
        let same : r ≡ u = ground (arith, hit) in
        let on' : q r ≡ true = rw same on in
        rw (hit, update-none p f t (one.0 hit), same, off) (only.0 on')
    | inr miss ↦
        let later : find p t ≡ some u = ground (arith, miss) in
        let ih = find-update_gone t u one.1 only.1 later on off in
        elim (Bool-cases (q r)) [
          | inl also ↦ absurd (find-some t u later on (only.0 also))
          | inr apart ↦ rw (miss, apart) ih
        ]
  ]
