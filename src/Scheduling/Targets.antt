-- ===== src/Scheduling/Targets.antt =====
-- The coverage targets of scheduling/scheduling.service.ts, from `setCoverageTargets` to `coverage`.
use vellora_backend.Prelude.{
  ℕ, ◌≡◌, refl, ◌∙◌, ap, Bool, true, false, ◌&&◌, Option, none, some, List, [], ◌∷◌, ◌++◌, ◌==◌,
  is_some, arith, Bool-cases, inl, inr,
}
use mathlib.Core.List.{append-nil}
use vellora_backend.Nest.{ok}
use vellora_backend.Database.{find, select, delete}
use vellora_backend.Access.Principal.{Request, scoped_store_ids, is_out_of_scope}
use vellora_backend.Scheduling.Model.{CoverageTarget, Db, target_of_store, same_key, has_repeat}
use vellora_backend.Scheduling.Queries.{get_targets, set_targets}
use vellora_backend.Scheduling.Service.{assert_store_in_scope}
use vellora_backend.Scheduling.Planning.{target, given_rows, set_coverage_targets}
use vellora_backend.Scheduling.Cells.{required_in}

-- What the client asks for an hour of a weekday: the one entry of the list for it.
abbrev pub asked : List (ℕ × ℕ × ℕ) → ℕ → ℕ → Option ℕ
asked [] weekday hour = none
asked ((w, h, n) ∷ rest) weekday hour = elim (w == weekday && h == hour) [
  | true ↦ some n
  | false ↦ asked rest weekday hour
]

none_of : (o : Option CoverageTarget) → is_some o ≡ false → o ≡ none
none_of none e = refl
none_of (some a) e = cc

module _ (r : Request) (company : ℕ) where
  select-delete_nil :
      (p : CoverageTarget → Bool) (t : List CoverageTarget) → select p (delete p t) ≡ []
  select-delete_nil p [] = refl
  select-delete_nil p (x ∷ t) = ground (arith, select-delete_nil p t)

  select-given :
      (store_id : ℕ) (given : List (ℕ × ℕ × ℕ)) (t : List CoverageTarget)
      → select (target_of_store company store_id) (given_rows r company store_id given ++ t)
        ≡ given_rows r company store_id given ++ select (target_of_store company store_id) t
  select-given store_id [] t = refl
  select-given store_id ((w, h, n) ∷ given) t = ground (arith, select-given store_id given t)

  required-absent :
      (store_id w h n : ℕ) (given : List (ℕ × ℕ × ℕ)) (t : List CoverageTarget)
      → find (same_key (target r company store_id w h n)) (given_rows r company store_id given ++ t)
        ≡ none
      → required_in (given_rows r company store_id given) w h ≡ none
  required-absent store_id w h n [] t absent = refl
  required-absent store_id w h n ((w', h', n') ∷ given) t absent =
      let ih = required-absent store_id w h n given t in ground (arith, ih, absent)

  -- Where no key is given twice, the last entry for an hour is the first.
  required-asked :
      (store_id w h : ℕ) (given : List (ℕ × ℕ × ℕ)) (t : List CoverageTarget)
      → has_repeat (given_rows r company store_id given ++ t) ≡ false
      → required_in (given_rows r company store_id given) w h ≡ asked given w h
  required-asked store_id w h [] t once = refl
  required-asked store_id w h ((w', h', n) ∷ given) t once =
      let ih = required-asked store_id w h given t (ground (arith, once)) in
      elim (Bool-cases (w' == w && h' == h)) [
        | inl hit ↦
            let absent : find (same_key (target r company store_id w' h' n))
                  (given_rows r company store_id given ++ t)
                ≡ none =
              none_of
                (find (same_key (target r company store_id w' h' n))
                  (given_rows r company store_id given ++ t))
                (ground (arith, once)) in
            let rest : required_in (given_rows r company store_id given) w' h' ≡ none =
              required-absent store_id w' h' n given t absent in
            let at_w : w' ≡ w = ground (arith, hit) in
            let at_h : h' ≡ h = ground (arith, hit) in
            let rest' : required_in (given_rows r company store_id given) w h ≡ none =
              rw (← at_w, ← at_h) rest in
            ground (arith, hit, rest')
        | inr miss ↦ ground (arith, miss, ih)
      ]

  -- The targets that `setCoverageTargets` saves are those that `coverage` reads afterwards: for every
  -- weekday and hour the number that was given, or none.
  pub required_in-set_targets :
      (store_id n : ℕ) (given : List (ℕ × ℕ × ℕ)) (d d' : Db)
      → set_coverage_targets r company store_id given d ≡ (ok n, d')
      → (targets : List CoverageTarget) × (get_targets r company store_id d' ≡ (ok targets, d'))
        × ((w h : ℕ) → required_in targets w h ≡ asked given w h)
  unfolding set_coverage_targets set_targets get_targets assert_store_in_scope
  required_in-set_targets store_id n given d d' returned =
      elim (Bool-cases (is_out_of_scope (scoped_store_ids r.user) (some store_id))) [
        | inl out ↦ absurd (ground (arith, out, returned))
        | inr reach ↦
            let p = target_of_store company store_id in
            let t = given_rows r company store_id given ++ delete p d.targets in
            elim (Bool-cases (has_repeat t)) [
              | inl twice ↦ absurd (ground (arith, reach, twice, returned))
              | inr once ↦
                  let left : d' ≡ record d { targets = t } =
                    ground (arith, reach, once, returned) in
                  let read : select p t ≡ given_rows r company store_id given =
                    select-given store_id given (delete p d.targets)
                    ∙ ap (λ x. given_rows r company store_id given ++ x)
                        (select-delete_nil p d.targets)
                    ∙ append-nil (given_rows r company store_id given) in
                  (
                    given_rows r company store_id given,
                    ground (arith, left, read),
                    λ w h. required-asked store_id w h given (delete p d.targets) once,
                  )
            ]
      ]
