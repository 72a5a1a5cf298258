-- ===== src/Scheduling/Approval.antt =====
-- `approve` of scheduling/scheduling.service.ts, which asks no guard.
use vellora_backend.Prelude.{
  none, if◌then◌else◌, ◌==◌, ◌↔◌, Bool, Bool-cases, ap, ◌∙◌, ℕ, ◌≡◌, ◌≢◌, refl, sym, true, false,
  not, ◌&&◌, some, arith, inl, inr,
}
use vellora_backend.Nest.{ok}
use vellora_backend.Database.{find, update}
use vellora_backend.Database.Laws.{find-holds, find-update, find-update_other}
use vellora_backend.Database.Unique.{find-some}
use vellora_backend.Database.Pairs.{find-others}
use vellora_backend.Access.Principal.{Request}
use vellora_backend.Scheduling.Model.{Shift, Db, by_id, approved}
use vellora_backend.Scheduling.Queries.{update_shift}
use vellora_backend.Scheduling.Service.{get, approve}
use vellora_backend.Scheduling.Bookings.{IsBooked, clash, clash_symm, get-found}
use vellora_backend.Scheduling.Kept.{written-IsBooked, moved}

abbrev pub as_approved : Shift → Shift
as_approved s = record s { status = approved }

module _ (r : Request) (company : ℕ) where
  -- `approve` of a shift that the caller may get answers with that shift as approved and stores it, and
  -- leaves the other rows of the company as they were. When no employee was booked twice before, none is
  -- afterwards exactly when the shift, as approved, clashes with no other shift.
  pub approve-IsBooked :
      (id j : ℕ) (u : Shift) (d d' : Db)
      → get r company id d ≡ (ok u, d')
      → IsBooked d.shifts
      → ((approve r company id d).0 ≡ ok (some (record u { status = approved })))
        × (find (by_id company j) (approve r company id d).1.shifts ≡ (
            if j == id
            then some (record u { status = approved })
            else find (by_id company j) d.shifts))
        × (IsBooked (approve r company id d).1.shifts ↔ (
            find
              (λ b. not (by_id company id b) && clash (record u { status = approved }) b)
              d.shifts
            ≡ none))
  unfolding approve update_shift
  approve-IsBooked id j u d d' got booked =
      let (same, here) = get-found r company id u d d' got in
      let p = by_id company id in
      let t = update p as_approved d.shifts in
      let hit : p u ≡ true = find-holds p d.shifts u here in
      let at_id : u.id ≡ id = ground (arith, hit) in
      let ran : approve r company id d ≡ (ok (find p t), record d { shifts = t }) =
        ground (arith, got, same) in
      let here' : find p t ≡ some (as_approved u) =
        rw (find-update p p as_approved d.shifts (λ w. refl), here, hit) refl in
      let clashes : Shift → Bool = λ b. not (p b) && clash (as_approved u) b in
      let others : find clashes t ≡ find clashes d.shifts =
        find-update_other p clashes as_approved d.shifts (λ w on. rw on refl)
          (λ w on. rw on refl) in
      (
        ap (λ x. x.0) ran ∙ ap ok here',
        ap (λ x. find (by_id company j) x.1.shifts) ran ∙ row u here hit here',
        (
          λ booked'.
              let after : IsBooked t = moved (sym (ap (λ x. x.1.shifts) ran)) booked' in
              sym others
              ∙ find-others clash p t (as_approved u) clash_symm (after.ids company id) here'
                  after.apart,
          λ free.
              moved (ap (λ x. x.1.shifts) ran) (
                written-IsBooked r company id as_approved u d (λ v. (refl, refl)) here free booked),
        ),
      )
    where
      row :
          (u : Shift)
          → find (by_id company id) d.shifts ≡ some u
          → by_id company id u ≡ true
          → find (by_id company id) (update (by_id company id) as_approved d.shifts)
            ≡ some (as_approved u)
          → find (by_id company j) (update (by_id company id) as_approved d.shifts)
            ≡ (if j == id then some (as_approved u) else find (by_id company j) d.shifts)
      row u here hit here' = elim (Bool-cases (j == id)) [
        | inl same ↦
            let e : j ≡ id = ground (arith, same) in
            rw same (
              ap (λ i. find (by_id company i) (update (by_id company id) as_approved d.shifts)) e
              ∙ here')
        | inr apart ↦ rw apart (
            find-update_other (by_id company id) (by_id company j) as_approved d.shifts
              (λ w on. ground (arith, on, apart)) (λ w on. ground (arith, on, apart)))
      ]

  -- `approve` of a shift that, as approved, clashes with another shift leaves the employee booked twice,
  -- for instance when the shift was cancelled.
  pub approve_double_books :
      (id : ℕ) (u v : Shift) (d d' : Db)
      → get r company id d ≡ (ok u, d')
      → find (by_id company v.id) d.shifts ≡ some v
      → v.id ≢ id
      → clash (as_approved u) v ≡ true
      → ¬ IsBooked (approve r company id d).1.shifts
  unfolding approve update_shift
  approve_double_books id u v d d' found other apart both booked =
      let (same, here) = get-found r company id u d d' found in
      let p = by_id company id in
      let hit : p u ≡ true = find-holds p d.shifts u here in
      let miss : p v ≡ false = ground (arith, apart) in
      let booked' : IsBooked (update p as_approved d.shifts) =
        moved (sym (ground (arith, found, same))) booked in
      let t = update p as_approved d.shifts in
      let here' : find p t ≡ some (as_approved u) =
        rw (find-update p p as_approved d.shifts (λ w. refl), here, hit) refl in
      let other' : find (by_id company v.id) t ≡ some v =
        rw (find-update p (by_id company v.id) as_approved d.shifts (λ w. refl), other, miss)
          refl in
      find-some (by_id company v.id) (λ b. not (p b) && clash (as_approved u) b) (λ x. x) t v other'
        (rw (miss) both)
        (find-others clash p t (as_approved u) clash_symm (booked'.ids company id) here'
          booked'.apart)
