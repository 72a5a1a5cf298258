-- ===== src/Scheduling/Bookings.antt =====
-- The guard of scheduling/scheduling.service.ts against double bookings, and the shifts it protects.
use vellora_backend.Prelude.{
  ℕ, ◌+◌, ◌-◌, ◌*◌, ◌≤◌, ◌<◌, ◌≡◌, refl, Bool, false, ◌&&◌, Option, none, some, List, [], ◌∷◌, ◌==◌,
  ltb, leb, arith, Bool-cases, Option-cases, inl, inr, ◌⊎◌, is_value,
}
use vellora_backend.Nest.{ok}
use vellora_backend.Database.{find, select}
use vellora_backend.Database.Totals.{IsUnique}
use vellora_backend.Database.Pairs.{NoPair}
use vellora_backend.Access.Principal.{Request, scoped_store_ids, is_out_of_scope}
use vellora_backend.Scheduling.Model.{
  Shift, Db, by_id, is_active, overlaps_of, Store, week_of, concurrent_of,
}
use vellora_backend.Scheduling.Service.{get, assert_no_conflicts, assert_room}
use vellora_backend.Scheduling.Rules.{
  sum_durations, start_of_week_utc, day_ms, minute_ms, max_week_minutes, is_on_leave, with_employee,
  cap_of,
}

abbrev pub is_store : ℕ → ℕ → Store → Bool
is_store company store_id s = s.company_id == company && s.id == store_id

list-cases : {A : Type 0} (t : List A) → (t ≡ []) ⊎ ((x : A) × (u : List A) × (t ≡ x ∷ u))
list-cases [] = inl refl
list-cases (x ∷ u) = inr (x, u, refl)

abbrev same_employee : Option ℕ → Option ℕ → Bool
same_employee none o = false
same_employee (some e) o = is_value e o

-- Two active shifts of one employee of one company that overlap.
abbrev pub clash : Shift → Shift → Bool
clash a b =
    a.company_id == b.company_id
    && same_employee a.employee_id b.employee_id
    && is_active a.status
    && is_active b.status
    && ltb b.starts_at_utc a.ends_at_utc
    && ltb a.starts_at_utc b.ends_at_utc

-- No id is given twice in a company, and no employee is booked twice at one time.
pub record IsBooked (shifts : List Shift) : Type 0 where
  pub ids : (c i : ℕ) → IsUnique (by_id c i) shifts
  pub apart : NoPair clash shifts

pub clash_symm : (a b : Shift) → clash a b ≡ clash b a
clash_symm a b = elim (Option-cases a.employee_id) [
  | inl no_a ↦ elim (Option-cases b.employee_id) [
    | inl no_b ↦ ground (arith, no_a, no_b)
    | inr (y, has_b) ↦ ground (arith, no_a, has_b)
  ]
  | inr (x, has_a) ↦ elim (Option-cases b.employee_id) [
    | inl no_b ↦ ground (arith, has_a, no_b)
    | inr (y, has_b) ↦ ground (arith, has_a, has_b)
  ]
]

module _ (r : Request) (company : ℕ) where
  assert_room-passed :
      (o : Option Store) (store_id starts ends : ℕ) (exclude : Option ℕ) (d d' : Db)
      → assert_room r company o store_id starts ends exclude d ≡ (ok tt, d')
      → (d' ≡ d)
        × ((s : Store)
            → o ≡ some s
            → 0 < s.capacity
            → with_employee (select (concurrent_of company store_id starts ends exclude) d.shifts)
              < s.capacity)
  unfolding assert_room
  assert_room-passed o store_id starts ends exclude d d' passed =
      elim (Bool-cases (ltb 0 (cap_of o))) [
        | inr free ↦ (
          ground (arith, free, passed),
          λ s e some_room. absurd (ground (arith, e, some_room, free)),
        )
        | inl limited ↦
            elim (Bool-cases (
              leb (cap_of o) (
                with_employee
                  (select (concurrent_of company store_id starts ends exclude) d.shifts)))) [
                    | inl full ↦ absurd (ground (arith, limited, full, passed))
                    | inr room ↦ (
                      ground (arith, limited, room, passed),
                      λ s e some_room. ground (arith, e, room),
                    )
                  ]
      ]

  -- What a passed guard tells: it changed nothing, the employee has no active shift at that time, the
  -- week holds the shift, and so does the store where it has a capacity.
  pub assert_no_conflicts-passed :
      (e store_id starts ends : ℕ) (exclude : Option ℕ) (d d' : Db)
      → assert_no_conflicts r company e store_id starts ends exclude d ≡ (ok tt, d')
      → (d' ≡ d)
        × (select (overlaps_of company e starts ends exclude) d.shifts ≡ [])
        × (sum_durations (
                select
                  (week_of company e
                    (start_of_week_utc starts)
                    (start_of_week_utc starts + 7 * day_ms)
                    exclude)
                  d.shifts)
              + (ends - starts)
            ≤ max_week_minutes * minute_ms)
        × ((s : Store)
            → find (is_store company store_id) d.stores ≡ some s
            → 0 < s.capacity
            → with_employee (select (concurrent_of company store_id starts ends exclude) d.shifts)
              < s.capacity)
  unfolding assert_no_conflicts
  assert_no_conflicts-passed e store_id starts ends exclude d d' passed =
      elim (Option-cases (find (λ x. x.company_id == company && x.id == e) d.employees)) [
        | inl nobody ↦ absurd (ground (arith, nobody, passed))
        | inr (u, known) ↦ elim (Bool-cases (is_on_leave u.status)) [
          | inl away ↦ absurd (ground (arith, known, away, passed))
          | inr here ↦
              elim (list-cases (select (overlaps_of company e starts ends exclude) d.shifts)) [
                | inr (x, t, busy) ↦ absurd (ground (arith, busy, passed))
                | inl free ↦
                    elim (Bool-cases (
                      ltb (max_week_minutes * minute_ms) (
                        sum_durations (
                          select
                            (week_of company e (start_of_week_utc starts)
                              (start_of_week_utc starts + 7 * day_ms) exclude)
                            d.shifts)
                        + (ends - starts)))) [
                          | inl over ↦ absurd (ground (arith, known, here, free, over, passed))
                          | inr within ↦
                              let room : assert_room r company
                                    (find (is_store company store_id) d.stores) store_id starts ends
                                    exclude d
                                  ≡ (ok tt, d') =
                                ground (arith, known, here, free, within, passed) in
                              let (same, holds) =
                                assert_room-passed (find (is_store company store_id) d.stores)
                                  store_id starts ends exclude d d' room in
                              (same, free, ground (arith, within), holds)
                        ]
              ]
        ]
      ]

  assert_room_lem :
      (o : Option Store) (store_id starts ends : ℕ) (exclude : Option ℕ) (d : Db)
      → (assert_room r company o store_id starts ends exclude d).1 ≡ d
  unfolding assert_room
  assert_room_lem o store_id starts ends exclude d = ground arith

  -- The guard only reads, whether it is passed or throws.
  pub assert_no_conflicts_lem :
      (e store_id starts ends : ℕ) (exclude : Option ℕ) (d : Db)
      → (assert_no_conflicts r company e store_id starts ends exclude d).1 ≡ d
  unfolding assert_no_conflicts
  assert_no_conflicts_lem e store_id starts ends exclude d =
      let room =
        assert_room_lem (find (is_store company store_id) d.stores) store_id starts ends exclude
          d in
      ground (arith, room)

  pub get_lem : (id : ℕ) (d : Db) → (get r company id d).1 ≡ d
  unfolding get
  get_lem id d = ground arith

  pub get-found :
      (id : ℕ) (s : Shift) (d d' : Db)
      → get r company id d ≡ (ok s, d')
      → (d' ≡ d) × (find (by_id company id) d.shifts ≡ some s)
  unfolding get
  get-found id s d d' passed = elim (Option-cases (find (by_id company id) d.shifts)) [
    | inl unknown ↦ absurd (ground (arith, unknown, passed))
    | inr (u, found) ↦
        elim (Bool-cases (is_out_of_scope (scoped_store_ids r.user) (some u.store_id))) [
          | inl out ↦ absurd (ground (arith, found, out, passed))
          | inr reach ↦ (ground (arith, found, reach, passed), ground (arith, found, reach, passed))
        ]
  ]
