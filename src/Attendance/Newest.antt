-- ===== src/Attendance/Newest.antt =====
-- The latest row of a query, where at most one row passes it.
use vellora_backend.Prelude.{
  ℕ, ◌≡◌, refl, Bool, true, false, none, some, List, [], ◌∷◌, arith, Bool-cases, inl, inr,
}
use vellora_backend.Database.{find, select, update}
use vellora_backend.Database.Totals.{IsUnique}
use vellora_backend.Database.Pairs.{find-update_mono}
use vellora_backend.Attendance.Model.{latest}

-- Where one row passes, the latest of those that pass is the one that is found.
pub latest-find :
    {A : Type 0} (at : A → ℕ) (q : A → Bool) (t : List A) (b : A)
    → IsUnique q t
    → latest at (select q t) ≡ some b
    → find q t ≡ some b
latest-find {A = A} at q [] b one e = cc
latest-find {A = A} at q (x ∷ t) b one e = elim (Bool-cases (q x)) [
  | inr miss ↦ ground (arith, miss, e, latest-find at q t b one.1)
  | inl hit ↦ ground (arith, hit, e, nothing t (one.0 hit))
]
  where
    nothing : (t : List A) → find q t ≡ none → select q t ≡ []
    nothing [] none_there = refl
    nothing (y ∷ t) none_there = ground (arith, none_there, nothing t)

-- A write that ends the one row that passes leaves none that does.
pub find-update_ended :
    {A : Type 0} (p q : A → Bool) (f : A → A) (t : List A) (b : A)
    → IsUnique q t
    → find q t ≡ some b
    → p b ≡ true
    → ((x : A) → q (f x) ≡ false)
    → find q (update p f t) ≡ none
find-update_ended p q f [] b one found hit off = refl
find-update_ended p q f (x ∷ t) b one found hit off = elim (Bool-cases (q x)) [
  | inl on ↦
      let same : x ≡ b = ground (arith, on, found) in
      let here : p x ≡ true = rw same hit in
      let rest =
        find-update_mono p q f t (λ y at also. absurd (ground (arith, also, off y))) (one.0 on) in
      rw (here, off x) rest
  | inr miss ↦
      let rest = find-update_ended p q f t b one.1 (ground (arith, miss, found)) hit off in
      elim (Bool-cases (p x)) [
        | inl here ↦ rw (here, off x) rest
        | inr apart ↦ rw (apart, miss) rest
      ]
]

-- A found row is the row of its key.
pub find-own :
    {A : Type 0} (p q : A → Bool) (t : List A) (b : A)
    → IsUnique p t
    → find q t ≡ some b
    → p b ≡ true
    → find p t ≡ some b
find-own p q [] b one found hit = cc
find-own p q (x ∷ t) b one found hit = elim (Bool-cases (q x)) [
  | inl on ↦
      let same : x ≡ b = ground (arith, on, found) in
      let here : p x ≡ true = rw same hit in ground (arith, here, same)
  | inr miss ↦
      let rest = find-own p q t b one.1 (ground (arith, miss, found)) hit in
      elim (Bool-cases (p x)) [
        | inl also ↦ absurd (ground (arith, one.0 also, rest))
        | inr apart ↦ ground (arith, apart, rest)
      ]
]
