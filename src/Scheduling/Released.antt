-- ===== src/Scheduling/Released.antt =====
-- The handlers of scheduling/scheduling.service.ts that free an employee or only mark a shift.
use vellora_backend.Prelude.{ℕ, refl, some, arith, Bool-cases, inl, inr}
use vellora_backend.Nest.{outcomes}
use vellora_backend.Database.Totals.{IsUnique-update}
use vellora_backend.Database.Pairs.{NoPair-delete, NoPair-update_mono, IsUnique-delete}
use vellora_backend.Access.Principal.{Request, scoped_store_ids, is_out_of_scope}
use vellora_backend.Scheduling.Model.{Db, by_id, cancelled, published}
use vellora_backend.Scheduling.Queries.{remove_shift, publish_range, update_shift, is_published_by}
use vellora_backend.Scheduling.Service.{assert_store_in_scope, get, cancel, remove, publish}
use vellora_backend.Scheduling.Bookings.{IsBooked, clash, get_lem}
use vellora_backend.Scheduling.Kept.{moved}

module _ (r : Request) (company : ℕ) where
  pub cancel-IsBooked :
      (id : ℕ) (d : Db) → IsBooked d.shifts → IsBooked (cancel r company id d).1.shifts
  unfolding cancel update_shift
  cancel-IsBooked id d booked = elim (outcomes (get r company id d) d (get_lem r company id d)) [
    | inr (e, threw) ↦ moved (ground (arith, threw)) booked
    | inl (u, found) ↦ moved (ground (arith, found)) (record {
      ids = λ c i.
          IsUnique-update (by_id c i) (by_id company id) (λ s. record s { status = cancelled })
            d.shifts (λ s. refl) (booked.ids c i);
      apart =
          NoPair-update_mono clash (by_id company id) (λ s. record s { status = cancelled })
            d.shifts (λ a b at on. ground (arith, on)) (λ a b at on. ground (arith, on))
            booked.apart;
    })
  ]

  pub remove-IsBooked :
      (id : ℕ) (d : Db) → IsBooked d.shifts → IsBooked (remove r company id d).1.shifts
  unfolding remove remove_shift
  remove-IsBooked id d booked = elim (outcomes (get r company id d) d (get_lem r company id d)) [
    | inr (e, threw) ↦ moved (ground (arith, threw)) booked
    | inl (u, found) ↦ moved (ground (arith, found)) (record {
      ids = λ c i. IsUnique-delete (by_id company id) (by_id c i) d.shifts (booked.ids c i);
      apart = NoPair-delete clash (by_id company id) d.shifts booked.apart;
    })
  ]

  pub publish-IsBooked :
      (store_id since until : ℕ) (d : Db)
      → IsBooked d.shifts
      → IsBooked (publish r company store_id since until d).1.shifts
  unfolding publish publish_range assert_store_in_scope
  publish-IsBooked store_id since until d booked =
      elim (Bool-cases (is_out_of_scope (scoped_store_ids r.user) (some store_id))) [
        | inl out ↦ moved (ground (arith, out)) booked
        | inr reach ↦
            let p = is_published_by r company store_id since until in
            moved (ground (arith, reach)) (record {
              ids = λ c i.
                  IsUnique-update (by_id c i) p (λ s. record s { status = published }) d.shifts
                    (λ s. refl) (booked.ids c i);
              apart =
                  NoPair-update_mono clash p (λ s. record s { status = published }) d.shifts
                    (λ a b at on. ground (arith, at, on)) (λ a b at on. ground (arith, at, on))
                    booked.apart;
            })
      ]
