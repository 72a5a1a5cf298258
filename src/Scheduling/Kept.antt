-- ===== src/Scheduling/Kept.antt =====
-- The handlers of scheduling/scheduling.service.ts and the bookings of the employees.
use vellora_backend.Prelude.{
  ℕ, ◌≡◌, refl, sym, true, false, not, ◌&&◌, Option, none, some, List, [], ◌∷◌, leb, arith,
  Bool-cases, Option-cases, inl, inr,
}
use mathlib.Core.Option.{get_or}
use mathlib.Core.Path.{subst}
use vellora_backend.Nest.{outcomes, ok}
use vellora_backend.Database.{find, update}
use vellora_backend.Database.Totals.{IsUnique-update}
use vellora_backend.Database.Pairs.{NoPair-update_one, find-none-select, find-none_mono}
use vellora_backend.Database.Laws.{find-holds}
use vellora_backend.Access.Principal.{Request, scoped_store_ids, is_out_of_scope}
use vellora_backend.Scheduling.Model.{Shift, Db, by_id, overlaps_of, draft}
use vellora_backend.Scheduling.Queries.{insert_shift, update_shift}
use vellora_backend.Scheduling.Service.{
  new_shift, updated, assert_store_in_scope, get, assert_no_conflicts, assert_if_employed, create,
  update_by_dto, assign, status_when_assigned,
}
use vellora_backend.Scheduling.Rules.{CreateShiftDto, UpdateShiftDto}
use vellora_backend.Scheduling.Bookings.{
  IsBooked, clash, clash_symm, get-found, get_lem, assert_no_conflicts_lem,
  assert_no_conflicts-passed,
}

-- The shifts that a guarded shift could clash with are those that the guard asks for.
clash-overlaps :
    (company e : ℕ) (exclude : Option ℕ) (a b : Shift)
    → a.company_id ≡ company
    → a.employee_id ≡ some e
    → clash a b ≡ true
    → overlaps_of company e a.starts_at_utc a.ends_at_utc none b ≡ true
clash-overlaps company e exclude a b own has on = ground (arith, own, has, on)

clash-overlaps_other :
    (company e id : ℕ) (a b : Shift)
    → a.company_id ≡ company
    → a.employee_id ≡ some e
    → (not (by_id company id b) && clash a b) ≡ true
    → overlaps_of company e a.starts_at_utc a.ends_at_utc (some id) b ≡ true
clash-overlaps_other company e id a b own has on = ground (arith, own, has, on)

pub moved : {t u : List Shift} → t ≡ u → IsBooked u → IsBooked t
moved same booked = subst (λ x. IsBooked x) (sym same) booked

owned :
    {company : ℕ} (id : ℕ) (u : Shift) (d : Db)
    → find (by_id company id) d.shifts ≡ some u
    → u.company_id ≡ company
owned {company} id u d here = ground (arith, find-holds (by_id company id) d.shifts u here)

find-false : (t : List Shift) → find (λ b. false) t ≡ none
find-false [] = refl
find-false (s ∷ t) = find-false t

module _ (r : Request) (company : ℕ) where
  if_employed_lem :
      (o : Option ℕ) (store_id starts ends : ℕ) (exclude : Option ℕ) (d : Db)
      → (assert_if_employed r company o store_id starts ends exclude d).1 ≡ d
  if_employed_lem none store_id starts ends exclude d = refl
  if_employed_lem (some e) store_id starts ends exclude d =
      assert_no_conflicts_lem r company e store_id starts ends exclude d

  -- A shift that passed the guard, or has no employee, clashes with no row that the guard looks at.
  free_new :
      (s : Shift) (store_id : ℕ) (d d' : Db)
      → s.company_id ≡ company
      → assert_if_employed r company s.employee_id store_id s.starts_at_utc s.ends_at_utc none d
        ≡ (ok tt, d')
      → find (clash s) d.shifts ≡ none
  free_new s store_id d d' own passed = elim (Option-cases s.employee_id) [
    | inl nobody ↦
        find-none_mono (clash s) (λ b. false) d.shifts (λ b on. ground (arith, nobody, on))
          (find-false d.shifts)
    | inr (e, has) ↦
        let (same, free, week, room) =
          assert_no_conflicts-passed r company e store_id s.starts_at_utc s.ends_at_utc none d d' (
            subst
              (λ (o : Option ℕ).
                assert_if_employed r company o store_id s.starts_at_utc s.ends_at_utc none d
                ≡ (ok tt, d'))
              has passed) in
        find-none_mono (clash s) (overlaps_of company e s.starts_at_utc s.ends_at_utc none) d.shifts
          (λ b on. clash-overlaps company e none s b own has on)
          (find-none-select (overlaps_of company e s.starts_at_utc s.ends_at_utc none) d.shifts
            free)
  ]

  free_updated :
      (s : Shift) (id store_id : ℕ) (d d' : Db)
      → s.company_id ≡ company
      → assert_if_employed r company s.employee_id store_id s.starts_at_utc s.ends_at_utc
          (some id)
          d
        ≡ (ok tt, d')
      → find (λ b. not (by_id company id b) && clash s b) d.shifts ≡ none
  free_updated s id store_id d d' own passed = elim (Option-cases s.employee_id) [
    | inl nobody ↦
        find-none_mono (λ b. not (by_id company id b) && clash s b) (λ b. false) d.shifts
          (λ b on. ground (arith, nobody, on)) (find-false d.shifts)
    | inr (e, has) ↦
        let (same, free, week, room) =
          assert_no_conflicts-passed r company e store_id s.starts_at_utc s.ends_at_utc (some id) d
            d'
            (subst
              (λ (o : Option ℕ).
                assert_if_employed r company o store_id s.starts_at_utc s.ends_at_utc (some id) d
                ≡ (ok tt, d'))
              has passed) in
        find-none_mono (λ b. not (by_id company id b) && clash s b)
          (overlaps_of company e s.starts_at_utc s.ends_at_utc (some id)) d.shifts
          (λ b on. clash-overlaps_other company e id s b own has on)
          (find-none-select (overlaps_of company e s.starts_at_utc s.ends_at_utc (some id)) d.shifts
            free)
  ]

  -- A write at one row that clashes with no other.
  pub written-IsBooked :
      (id : ℕ) (f : Shift → Shift) (u : Shift) (d : Db)
      → ((s : Shift) → ((f s).id ≡ s.id) × ((f s).company_id ≡ s.company_id))
      → find (by_id company id) d.shifts ≡ some u
      → find (λ b. not (by_id company id b) && clash (f u) b) d.shifts ≡ none
      → IsBooked d.shifts
      → IsBooked (update (by_id company id) f d.shifts)
  written-IsBooked id f u d same found free booked = record {
    ids = λ c i.
        IsUnique-update (by_id c i) (by_id company id) f d.shifts
          (λ s. ground (arith, (same s).0, (same s).1)) (booked.ids c i);
    apart =
        NoPair-update_one clash (by_id company id) f d.shifts u clash_symm (booked.ids company id)
          found free booked.apart;
  }

  -- A new row with a new id that clashes with no row.
  added-IsBooked :
      (s : Shift) (t : List Shift)
      → find (by_id s.company_id s.id) t ≡ none
      → find (clash s) t ≡ none
      → IsBooked t
      → IsBooked (s ∷ t)
  added-IsBooked s t fresh free booked = record {
    ids = λ c i. (λ hit. alone c i (ground (arith, hit)) (ground (arith, hit)), booked.ids c i);
    apart = (free, booked.apart);
  }
    where
      alone : (c i : ℕ) → s.company_id ≡ c → s.id ≡ i → find (by_id c i) t ≡ none
      alone c i own named = rw (← own, ← named) fresh

  pub create-IsBooked :
      (dto : CreateShiftDto) (d : Db)
      → find (by_id company (r.uuid d.drawn)) d.shifts ≡ none
      → IsBooked d.shifts
      → IsBooked (create r company dto d).1.shifts
  unfolding create assert_store_in_scope insert_shift
  create-IsBooked dto d fresh booked =
      elim (Bool-cases (is_out_of_scope (scoped_store_ids r.user) (some dto.store_id))) [
        | inl out ↦ moved (ground (arith, out)) booked
        | inr reach ↦
            let same =
              if_employed_lem dto.employee_id dto.store_id dto.starts_at_utc dto.ends_at_utc none
                d in
            elim (outcomes
              (assert_if_employed r company dto.employee_id dto.store_id dto.starts_at_utc
                dto.ends_at_utc none d)
              d same) [
                | inr (e, threw) ↦ moved (ground (arith, reach, threw)) booked
                | inl (_, passed) ↦
                    let s : Shift = new_shift r company dto (r.uuid d.drawn) in
                    moved (ground (arith, reach, passed)) (
                      added-IsBooked s d.shifts fresh (free_new s dto.store_id d d refl passed)
                        booked)
              ]
      ]

  pub update-IsBooked :
      (id : ℕ) (dto : UpdateShiftDto) (d : Db)
      → IsBooked d.shifts
      → IsBooked (update_by_dto r company id dto d).1.shifts
  unfolding update_by_dto update_shift
  update-IsBooked id dto d booked =
      elim (outcomes (get r company id d) d (get_lem r company id d)) [
        | inr (e, threw) ↦ moved (ground (arith, threw)) booked
        | inl (u, found) ↦
            let (_, here) = get-found r company id u d d found in
            let s : Shift = updated r company (get_or dto.employee_id u.employee_id) dto u in
            elim (Bool-cases (leb s.ends_at_utc s.starts_at_utc)) [
              | inl backwards ↦ moved (ground (arith, found, backwards)) booked
              | inr forwards ↦
                  let same =
                    if_employed_lem s.employee_id u.store_id s.starts_at_utc s.ends_at_utc (some id)
                      d in
                  elim (outcomes
                    (assert_if_employed r company s.employee_id u.store_id s.starts_at_utc
                      s.ends_at_utc (some id) d)
                    d same) [
                      | inr (e, threw) ↦ moved (ground (arith, found, forwards, threw)) booked
                      | inl (_, passed) ↦ moved (ground (arith, found, forwards, passed)) (
                          written-IsBooked id
                            (updated r company (get_or dto.employee_id u.employee_id) dto) u d
                            (λ v. (refl, refl)) here
                            (free_updated s id u.store_id d d (owned id u d here) passed) booked)
                    ]
            ]
      ]

  pub assign-IsBooked :
      (id : ℕ) (o : Option ℕ) (d : Db)
      → IsBooked d.shifts
      → IsBooked (assign r company id o d).1.shifts
  unfolding assign update_shift
  assign-IsBooked id o d booked = elim (outcomes (get r company id d) d (get_lem r company id d)) [
    | inr (e, threw) ↦ moved (ground (arith, threw)) booked
    | inl (u, found) ↦
        let (_, here) = get-found r company id u d d found in
        elim (Option-cases o) [
          | inl nobody ↦ moved (ground (arith, found, nobody)) (
              written-IsBooked id (λ v. record v { employee_id = none; status = draft }) u d
                (λ v. (refl, refl)) here
                (free_updated (record u { employee_id = none; status = draft }) id u.store_id d d
                  (owned id u d here) refl)
                booked)
          | inr (e, named) ↦
              let f : Shift → Shift = λ v. record v {
                employee_id = some e;
                status = status_when_assigned r company u.status;
              } in
              elim (outcomes
                (assert_no_conflicts r company e u.store_id u.starts_at_utc u.ends_at_utc (some id)
                  d)
                d
                (assert_no_conflicts_lem r company e u.store_id u.starts_at_utc u.ends_at_utc
                  (some id) d)) [
                    | inr (x, threw) ↦ moved (ground (arith, found, named, threw)) booked
                    | inl (_, passed) ↦ moved (ground (arith, found, named, passed)) (
                        written-IsBooked id f u d (λ v. (refl, refl)) here
                          (free_updated (f u) id u.store_id d d (owned id u d here) passed) booked)
                  ]
        ]
  ]
