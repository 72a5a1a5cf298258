-- ===== src/Database/Pairs.antt =====
-- Tables no two rows of which clash, under the writes of a query.
use vellora_backend.Prelude.{
  ◌≡◌, refl, ◌∙◌, Bool, true, false, not, ◌&&◌, none, some, List, [], ◌∷◌, ◌++◌, arith, Bool-cases,
  inl, inr, ◌⊎◌,
}
use mathlib.Core.Path.{subst}
use vellora_backend.Database.{find, select, update, delete}
use vellora_backend.Database.Laws.{update-none}
use vellora_backend.Database.Totals.{IsUnique}
use vellora_backend.Database.Unique.{find-update_absent, find-some}

module _ {ℓ} {A : Type ℓ} where
  -- A query that implies another one finds nothing where the other finds nothing.
  pub find-none_mono :
      (p q : A → Bool) (t : List A)
      → ((r : A) → p r ≡ true → q r ≡ true)
      → find q t ≡ none
      → find p t ≡ none
  find-none_mono p q [] imp e = refl
  find-none_mono p q (r ∷ t) imp e = elim (Bool-cases (p r)) [
    | inl hit ↦ absurd (ground (arith, imp r hit, e))
    | inr miss ↦ rw miss (find-none_mono p q t imp (tail (Bool-cases (q r))))
  ]
    where
      tail : (q r ≡ true) ⊎ (q r ≡ false) → find q t ≡ none
      tail (inl hit) = absurd (ground (arith, hit, e))
      tail (inr miss) = ground (arith, miss, e)

  pub find-none-select : (p : A → Bool) (t : List A) → select p t ≡ [] → find p t ≡ none
  find-none-select p [] e = refl
  find-none-select p (r ∷ t) e = elim (Bool-cases (p r)) [
    | inl hit ↦ absurd (ground (arith, hit, e))
    | inr miss ↦ ground (arith, miss, e, find-none-select p t)
  ]

  -- What holds of no row of two tables holds of no row of both together.
  pub find-append_none :
      (p : A → Bool) (a b : List A) → find p a ≡ none → find p b ≡ none → find p (a ++ b) ≡ none
  find-append_none p [] b e e' = e'
  find-append_none p (r ∷ a) b e e' = ground (arith, find-append_none p a b, e, e')

  pub find-delete-none :
      (p q : A → Bool) (t : List A) → find q t ≡ none → find q (delete p t) ≡ none
  find-delete-none p q [] e = refl
  find-delete-none p q (r ∷ t) e = elim (Bool-cases (q r)) [
    | inl hit ↦ absurd (ground (arith, hit, e))
    | inr miss ↦ elim (Bool-cases (p r)) [
      | inl gone ↦ rw gone (find-delete-none p q t (ground (arith, miss, e)))
      | inr kept ↦ rw (kept, miss) (find-delete-none p q t (ground (arith, miss, e)))
    ]
  ]

  pub IsUnique-delete : (p q : A → Bool) (t : List A) → IsUnique q t → IsUnique q (delete p t)
  IsUnique-delete p q [] one = tt
  IsUnique-delete p q (r ∷ t) one = elim (Bool-cases (p r)) [
    | inl gone ↦ rw gone (IsUnique-delete p q t one.1)
    | inr kept ↦ rw kept (λ on. find-delete-none p q t (one.0 on), IsUnique-delete p q t one.1)
  ]

  -- A write that makes no row for a query.
  pub find-update_mono :
      (p q : A → Bool) (f : A → A) (t : List A)
      → ((r : A) → p r ≡ true → q (f r) ≡ true → q r ≡ true)
      → find q t ≡ none
      → find q (update p f t) ≡ none
  find-update_mono p q f [] less e = refl
  find-update_mono p q f (r ∷ t) less e = elim (Bool-cases (q r)) [
    | inl hit ↦ absurd (ground (arith, hit, e))
    | inr miss ↦
        let rest = find-update_mono p q f t less (ground (arith, miss, e)) in
        elim (Bool-cases (p r)) [
          | inr kept ↦ rw (kept, miss) rest
          | inl written ↦ rw written (elim (Bool-cases (q (f r))) [
            | inl on ↦ absurd (ground (arith, less r written on, miss))
            | inr still ↦ rw still rest
          ])
        ]
  ]

  pub IsUnique-update_mono :
      (p q : A → Bool) (f : A → A) (t : List A)
      → ((r : A) → p r ≡ true → q (f r) ≡ true → q r ≡ true)
      → IsUnique q t
      → IsUnique q (update p f t)
  IsUnique-update_mono p q f [] less one = tt
  IsUnique-update_mono p q f (r ∷ t) less one = elim (Bool-cases (p r)) [
    | inr kept ↦
        rw kept
          (λ on. find-update_mono p q f t less (one.0 on), IsUnique-update_mono p q f t less one.1)
    | inl written ↦ rw written (
      λ on. find-update_mono p q f t less (one.0 (less r written on)),
      IsUnique-update_mono p q f t less one.1,
    )
  ]

module _ {ℓ} {A : Type ℓ} (c : A → A → Bool) where
  abbrev pub NoPair : List A → Type ℓ
  NoPair [] = Unit
  NoPair (r ∷ t) = (find (c r) t ≡ none) × NoPair t

  pub NoPair-delete : (p : A → Bool) (t : List A) → NoPair t → NoPair (delete p t)
  NoPair-delete p [] apart = tt
  NoPair-delete p (r ∷ t) apart = elim (Bool-cases (p r)) [
    | inl gone ↦ rw gone (NoPair-delete p t apart.1)
    | inr kept ↦ rw kept (find-delete-none p (c r) t apart.0, NoPair-delete p t apart.1)
  ]

  pub NoPair-update_mono :
      (p : A → Bool) (f : A → A) (t : List A)
      → ((a b : A) → p a ≡ true → c (f a) b ≡ true → c a b ≡ true)
      → ((a b : A) → p b ≡ true → c a (f b) ≡ true → c a b ≡ true)
      → NoPair t
      → NoPair (update p f t)
  NoPair-update_mono p f [] left right apart = tt
  NoPair-update_mono p f (r ∷ t) left right apart = elim (Bool-cases (p r)) [
    | inr kept ↦ rw kept (
      find-update_mono p (c r) f t (right r) apart.0,
      NoPair-update_mono p f t left right apart.1,
    )
    | inl written ↦ rw written (
      find-none_mono (c (f r)) (c r) (update p f t) (λ b on. left r b written on)
          (find-update_mono p (c r) f t (right r) apart.0),
      NoPair-update_mono p f t left right apart.1,
    )
  ]

  -- The one row that is written clashes with no other row.
  pub NoPair-update_one :
      (p : A → Bool) (f : A → A) (t : List A) (u : A)
      → ((a b : A) → c a b ≡ c b a)
      → IsUnique p t
      → find p t ≡ some u
      → find (λ r. not (p r) && c (f u) r) t ≡ none
      → NoPair t
      → NoPair (update p f t)
  NoPair-update_one p f [] u symm one found free apart = tt
  NoPair-update_one p f (r ∷ t) u symm one found free apart = elim (Bool-cases (p r)) [
    | inl hit ↦
        let same : r ≡ u = ground (arith, hit) in
        rw (hit, update-none p f t (one.0 hit), same)
          (others t (one.0 hit) (ground (arith, hit, free)), apart.1)
    | inr miss ↦
        let later : find p t ≡ some u = ground (arith, miss, found) in
        elim (Bool-cases (c (f u) r)) [
          | inl clash ↦ absurd (ground (arith, miss, clash, free))
          | inr none_here ↦ rw miss (
            find-update_absent p (c r) f t u one.1 later (symm r (f u) ∙ none_here) apart.0,
            NoPair-update_one p f t u symm one.1 later (ground (arith, miss, none_here, free))
                apart.1,
          )
        ]
  ]
    where
      others :
          (t : List A)
          → find p t ≡ none
          → find (λ r. not (p r) && c (f u) r) t ≡ none
          → find (c (f u)) t ≡ none
      others [] gone free = refl
      others (x ∷ t) gone free = elim (Bool-cases (p x)) [
        | inl hit ↦ absurd (ground (arith, hit, gone))
        | inr miss ↦ ground (arith, miss, gone, free, others t)
      ]

  -- A found row clashes with no row that the query does not find.
  pub find-others :
      (p : A → Bool) (t : List A) (u : A)
      → ((a b : A) → c a b ≡ c b a)
      → IsUnique p t
      → find p t ≡ some u
      → NoPair t
      → find (λ r. not (p r) && c u r) t ≡ none
  find-others p [] u symm one found apart = refl
  find-others p (r ∷ t) u symm one found apart = elim (Bool-cases (p r)) [
    | inl hit ↦
        let same : r ≡ u = ground (arith, hit, found) in
        let free =
          find-none_mono (λ x. not (p x) && c r x) (c r) t (λ x on. ground (arith, on)) apart.0 in
        ground (arith, hit, subst (λ (x : A). find (λ y. not (p y) && c x y) t ≡ none) same free)
    | inr miss ↦
        let later : find p t ≡ some u = ground (arith, miss, found) in
        elim (Bool-cases (c r u)) [
          | inl clash ↦ absurd (find-some p (c r) (λ x. x) t u later clash apart.0)
          | inr free ↦
              let free' : c u r ≡ false = symm u r ∙ free in
              rw (miss, free') (find-others p t u symm one.1 later apart.1)
        ]
  ]
