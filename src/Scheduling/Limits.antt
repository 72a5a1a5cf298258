-- ===== src/Scheduling/Limits.antt =====
-- The weekly hours and the capacity of scheduling/scheduling.service.ts after `create`.
use vellora_backend.Prelude.{
  ℕ, suc, ◌+◌, ◌-◌, ◌*◌, ◌≤◌, ◌<◌, ◌≡◌, sym, Bool, none, some, List, ◌∷◌, arith, Bool-cases, inl,
  inr,
}
use mathlib.Core.Path.{subst}
use vellora_backend.Nest.{ok, outcomes}
use vellora_backend.Database.{find, select}
use vellora_backend.Access.Principal.{Request, scoped_store_ids, is_out_of_scope}
use vellora_backend.Scheduling.Model.{Shift, Store, Db, week_of, concurrent_of}
use vellora_backend.Scheduling.Queries.{insert_shift}
use vellora_backend.Scheduling.Service.{
  create, new_shift, assert_store_in_scope, assert_no_conflicts,
}
use vellora_backend.Scheduling.Rules.{
  CreateShiftDto, sum_durations, start_of_week_utc, day_ms, minute_ms, max_week_minutes,
  with_employee,
}
use vellora_backend.Scheduling.Bookings.{
  is_store, assert_no_conflicts-passed, assert_no_conflicts_lem,
}

sum_durations-add :
    (p : Shift → Bool) (s : Shift) (t : List Shift)
    → sum_durations (select p (s ∷ t))
      ≤ sum_durations (select p t) + (s.ends_at_utc - s.starts_at_utc)
sum_durations-add p s t = ground arith

with_employee-add :
    (p : Shift → Bool) (s : Shift) (t : List Shift)
    → with_employee (select p (s ∷ t)) ≤ with_employee (select p t) + 1
with_employee-add p s t = ground arith

module _ (r : Request) (company : ℕ) where
  -- What holds of the shifts after an employee was given one from `starts` to `ends`.
  pub record IsWithinLimits (e store_id starts ends : ℕ) (d : Db) : Type 0 where
    pub hours :
        sum_durations (
          select
            (week_of company e
              (start_of_week_utc starts)
              (start_of_week_utc starts + 7 * day_ms)
              none)
            d.shifts)
        ≤ max_week_minutes * minute_ms
    pub room :
        (s : Store)
        → find (is_store company store_id) d.stores ≡ some s
        → 0 < s.capacity
        → with_employee (select (concurrent_of company store_id starts ends none) d.shifts)
          ≤ s.capacity

  -- After `create` has returned for an employee, the shifts of the employee in the week of the new shift
  -- last at most the weekly minutes together, and the assigned shifts of its store at its time are at most
  -- the capacity of the store, if the store is there and has one.
  pub create-IsWithinLimits :
      (dto : CreateShiftDto) (e : ℕ) (s : Shift) (d : Db)
      → dto.employee_id ≡ some e
      → (create r company dto d).0 ≡ ok s
      → IsWithinLimits e dto.store_id dto.starts_at_utc dto.ends_at_utc (create r company dto d).1
  unfolding create assert_store_in_scope insert_shift
  create-IsWithinLimits dto e s d named returned =
      elim (Bool-cases (is_out_of_scope (scoped_store_ids r.user) (some dto.store_id))) [
        | inl out ↦ absurd (ground (arith, out, returned))
        | inr reach ↦
            let guard =
              assert_no_conflicts r company e dto.store_id dto.starts_at_utc dto.ends_at_utc none
                d in
            elim (outcomes guard d (
              assert_no_conflicts_lem r company e dto.store_id dto.starts_at_utc dto.ends_at_utc
                none d)) [
                  | inr (x, threw) ↦ absurd (ground (arith, named, reach, threw, returned))
                  | inl (_, passed) ↦
                      let (same, free, week, room) =
                        assert_no_conflicts-passed r company e dto.store_id dto.starts_at_utc
                          dto.ends_at_utc none d d passed in
                      let row : Shift = new_shift r company dto (r.uuid d.drawn) in
                      let after : (create r company dto d).1
                          ≡ record d { shifts = row ∷ d.shifts; drawn = suc d.drawn } =
                        ground (arith, named, reach, passed) in
                      subst
                        (λ (x : Db).
                          IsWithinLimits e dto.store_id dto.starts_at_utc dto.ends_at_utc x)
                        (sym after)
                        (record {
                          hours = omega (
                            arith,
                            sum_durations-add
                                (week_of company e (start_of_week_utc dto.starts_at_utc)
                                  (start_of_week_utc dto.starts_at_utc + 7 * day_ms) none)
                                row d.shifts,
                            week,
                          );
                          room = λ st here capped. omega (
                            arith,
                            with_employee-add
                                (concurrent_of company dto.store_id dto.starts_at_utc
                                  dto.ends_at_utc none)
                                row d.shifts,
                            room st here capped,
                          );
                        })
                ]
      ]
