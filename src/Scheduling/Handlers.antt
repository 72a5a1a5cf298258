-- ===== src/Scheduling/Handlers.antt =====
-- The requests to scheduling/scheduling.service.ts that book, move or free an employee.
use vellora_backend.Prelude.{ℕ, ◌≡◌, Option, none}
use vellora_backend.Database.{find}
use vellora_backend.Access.Principal.{Request}
use vellora_backend.Scheduling.Model.{Db, by_id}
use vellora_backend.Scheduling.Service.{create, update_by_dto, assign, cancel, remove, publish}
use vellora_backend.Scheduling.Rules.{CreateShiftDto, UpdateShiftDto}
use vellora_backend.Scheduling.Bookings.{IsBooked}
use vellora_backend.Scheduling.Kept.{create-IsBooked, update-IsBooked, assign-IsBooked}
use vellora_backend.Scheduling.Released.{cancel-IsBooked, remove-IsBooked, publish-IsBooked}

pub data Call : Type 0 where
  creates : CreateShiftDto → Call
  updates : ℕ → UpdateShiftDto → Call
  assigns : ℕ → Option ℕ → Call
  cancels : ℕ → Call
  removes : ℕ → Call
  publishes : ℕ → ℕ → ℕ → Call

module _ (r : Request) (company : ℕ) where
  -- What a request leaves, whether it returns or throws.
  abbrev pub after : Call → Db → Db
  after (creates dto) d = (create r company dto d).1
  after (updates id dto) d = (update_by_dto r company id dto d).1
  after (assigns id employee_id) d = (assign r company id employee_id d).1
  after (cancels id) d = (cancel r company id d).1
  after (removes id) d = (remove r company id d).1
  after (publishes store_id since until) d = (publish r company store_id since until d).1

  -- Creating, updating, assigning, cancelling, removing and publishing shifts, in every outcome, leave no
  -- employee with two active shifts at one time where there was none, if the id that the database draws
  -- next is new.
  pub after-IsBooked :
      (call : Call) (d : Db)
      → find (by_id company (r.uuid d.drawn)) d.shifts ≡ none
      → IsBooked d.shifts
      → IsBooked (after call d).shifts
  after-IsBooked (creates dto) d fresh booked = create-IsBooked r company dto d fresh booked
  after-IsBooked (updates id dto) d fresh booked = update-IsBooked r company id dto d booked
  after-IsBooked (assigns id o) d fresh booked = assign-IsBooked r company id o d booked
  after-IsBooked (cancels id) d fresh booked = cancel-IsBooked r company id d booked
  after-IsBooked (removes id) d fresh booked = remove-IsBooked r company id d booked
  after-IsBooked (publishes store_id since until) d fresh booked =
      publish-IsBooked r company store_id since until d booked
