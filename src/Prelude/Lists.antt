-- ===== src/Prelude/Lists.antt =====
-- Lists over the native numbers: tests, lengths, and the sort of `Array.prototype.sort`.
use Prim.Native.Nat.{ℕ, zero, suc, ◌+◌}
use mathlib.Core.Path.{◌≡◌}
use mathlib.Core.Option.{Option, none, some}
use mathlib.Core.Bool.{Bool, false, ◌||◌}
use mathlib.Core.List.{List, [], ◌∷◌, ◌++◌}
use native.Mathlib.Omega.{arith}
use vellora_backend.Prelude.Tests.{◌==◌, if◌then◌else◌}

-- `ids.includes(x)`
abbrev pub includes : List ℕ → ℕ → Bool
includes [] x = false
includes (y ∷ ys) x = (y == x) || includes ys x

module _ {ℓ} {A : Type ℓ} where
  abbrev pub length : List A → ℕ
  length [] = 0
  length (x ∷ xs) = suc (length xs)

  abbrev pub get_elem? : List A → ℕ → Option A
  get_elem? [] i = none
  get_elem? (x ∷ xs) zero = some x
  get_elem? (x ∷ xs) (suc i) = get_elem? xs i

  abbrev pub set : List A → ℕ → A → List A
  set [] i v = []
  set (x ∷ xs) zero v = v ∷ xs
  set (x ∷ xs) (suc i) v = x ∷ set xs i v

  abbrev pub take : ℕ → List A → List A
  take zero xs = []
  take (suc n) [] = []
  take (suc n) (x ∷ xs) = x ∷ take n xs

  -- A predicate that holds of every element; it computes to a tuple.
  abbrev pub All {κ} : (A → Type κ) → List A → Type κ
  All P [] = Unit
  All P (x ∷ xs) = P x × All P xs

  pub length-append : (xs ys : List A) → length (xs ++ ys) ≡ length xs + length ys
  length-append [] ys = omega arith
  length-append (x ∷ xs) ys = omega (arith, length-append xs ys)

  -- A stable sort: an element goes before those that it may not follow.
  abbrev pub sort_insert : (A → A → Bool) → A → List A → List A
  sort_insert le x [] = x ∷ []
  sort_insert le x (y ∷ ys) =
      let rest = sort_insert le x ys in if le x y then x ∷ y ∷ ys else y ∷ rest

  abbrev pub sort_by : (A → A → Bool) → List A → List A
  sort_by le [] = []
  sort_by le (x ∷ xs) = sort_insert le x (sort_by le xs)
