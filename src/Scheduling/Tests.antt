-- ===== src/Scheduling/Tests.antt =====
-- scheduling/ on small inputs: one employee, one store, and the week of Monday, day 7.
use vellora_backend.Prelude.{
  ◌↔◌, not, ◌&&◌, ℕ, ◌+◌, ◌*◌, ◌≡◌, refl, none, some, List, [], ◌∷◌, arith,
}
use vellora_backend.Nest.{ok}
use vellora_backend.Database.{find}
use vellora_backend.Access.Principal.{AuthenticatedUser, owner, Request}
use vellora_backend.Scheduling.Model.{
  by_id, approved, Shift, assigned, published, cancelled, manual, EmployeeStatus, CoverageTarget,
  Db,
}
use vellora_backend.Scheduling.Queries.{get_targets}
use vellora_backend.Scheduling.Service.{create, get, approve}
use vellora_backend.Scheduling.Rules.{CreateShiftDto}
use vellora_backend.Scheduling.Planning.{coverage, set_coverage_targets}
use vellora_backend.Scheduling.Cells.{Cell, required_in}
use vellora_backend.Scheduling.Suggestions.{Suggestion, suggestions}
use vellora_backend.Scheduling.Suggestions.Ranges.{gaps, covered, covered-suggestions}
use vellora_backend.Scheduling.Bookings.{IsBooked, clash}
use vellora_backend.Scheduling.Handlers.{creates, after, after-IsBooked}
use vellora_backend.Scheduling.Approval.{approve-IsBooked, approve_double_books}
use vellora_backend.Scheduling.Limits.{IsWithinLimits, create-IsWithinLimits}
use vellora_backend.Scheduling.Targets.{asked, required_in-set_targets}

abbrev boss : AuthenticatedUser
boss = record {
  supabase_uid = 90;
  user_id = 5;
  memberships = [];
  company_id = some 1;
  role = some owner;
  scope_type = none;
  scope_ids = none;
  platform_role = none;
}

abbrev request : Request
request = record { user = some boss; now = 1000; uuid = λ n. 70 + n }

-- Monday from 9 to 11 and from 10 to 12.
abbrev nine : ℕ
nine = 7 * 86400000 + 9 * 3600000

abbrev ten : ℕ
ten = 7 * 86400000 + 10 * 3600000

abbrev eleven : ℕ
eleven = 7 * 86400000 + 11 * 3600000

abbrev noon : ℕ
noon = 7 * 86400000 + 12 * 3600000

abbrev morning : Shift
morning = record {
  id = 20;
  company_id = 1;
  store_id = 2;
  employee_id = some 8;
  activity_id = none;
  role = none;
  starts_at_utc = nine;
  ends_at_utc = eleven;
  break_minutes = 0;
  status = published;
  notes = none;
  source = manual;
  created_by = none;
}

abbrev dropped : Shift
dropped = record morning { id = 21; starts_at_utc = ten; ends_at_utc = noon; status = cancelled }

abbrev plan : Db
plan = record {
  shifts = morning ∷ dropped ∷ [];
  templates = [];
  targets =
      record { company_id = 1; store_id = 2; weekday = 0; hour = 9; required_staff = 3 }
      ∷ record { company_id = 1; store_id = 2; weekday = 0; hour = 10; required_staff = 3 }
      ∷ [];
  employees = record { id = 8; company_id = 1; status = EmployeeStatus.active } ∷ [];
  stores = record { id = 2; company_id = 1; capacity = 4 } ∷ [];
  drawn = 0;
}

abbrev quiet : Db
quiet = record plan { shifts = [] }

quiet-IsBooked : IsBooked quiet.shifts
quiet-IsBooked = record { ids = λ c i. tt; apart = tt }

abbrev asks : CreateShiftDto
asks = record {
  store_id = 2;
  employee_id = some 8;
  activity_id = none;
  role = none;
  starts_at_utc = nine;
  ends_at_utc = eleven;
  break_minutes = none;
  notes = none;
  status = none;
  source = none;
}

after-IsBooked_example : IsBooked (after request 1 (creates asks) quiet).shifts
after-IsBooked_example = after-IsBooked request 1 (creates asks) quiet refl quiet-IsBooked

abbrev booked : Shift
booked = record morning { id = 70; status = assigned; created_by = some 5 }

is_created : (create request 1 asks quiet).0 ≡ ok booked
unfolding create
is_created = refl

create-IsWithinLimits_example :
    IsWithinLimits request 1 8 2 nine eleven (create request 1 asks quiet).1
create-IsWithinLimits_example = create-IsWithinLimits request 1 asks 8 booked quiet refl is_created

-- A second request for the same time is refused.
is_refused : (create request 1 asks plan).1 ≡ plan
unfolding create
is_refused = refl

abbrev single : Db
single = record plan { shifts = morning ∷ [] }

single-IsBooked : IsBooked single.shifts
single-IsBooked = record { ids = λ c i. (λ hit. refl, tt); apart = (refl, tt) }

is_single : get request 1 20 single ≡ (ok morning, single)
unfolding get
is_single = refl

approve-IsBooked_example :
    ((approve request 1 20 single).0 ≡ ok (some (record morning { status = approved })))
    × (find (by_id 1 20) (approve request 1 20 single).1.shifts
        ≡ some (record morning { status = approved }))
    × (IsBooked (approve request 1 20 single).1.shifts ↔ (
        find
          (λ b. not (by_id 1 20 b) && clash (record morning { status = approved }) b)
          single.shifts
        ≡ none))
approve-IsBooked_example =
    approve-IsBooked request 1 20 20 morning single single is_single single-IsBooked

is_got : get request 1 21 plan ≡ (ok dropped, plan)
unfolding get
is_got = refl

approve_double_books_example : ¬ IsBooked (approve request 1 21 plan).1.shifts
approve_double_books_example =
    approve_double_books request 1 21 dropped morning plan plan is_got refl (ground arith) refl

abbrev two_hours : List Suggestion
two_hours = record { store_id = 2; date = 7; from_hour = 9; to_hour = 11; add_staff = 2 } ∷ []

is_suggested : suggestions request 1 2 7 7 plan ≡ (ok two_hours, plan)
unfolding suggestions
is_suggested = refl

covered-suggestions_example :
    (cells : List Cell) × (coverage request 1 2 7 7 plan ≡ (ok cells, plan))
    × (covered two_hours ≡ gaps cells)
covered-suggestions_example = covered-suggestions request 1 2 7 7 two_hours plan plan is_suggested

abbrev wanted : List (ℕ × ℕ × ℕ)
wanted = (0, 9, 4) ∷ (5, 18, 2) ∷ []

abbrev saved : Db
saved = (set_coverage_targets request 1 2 wanted plan).1

is_saved : set_coverage_targets request 1 2 wanted plan ≡ (ok 2, saved)
unfolding set_coverage_targets
is_saved = refl

required_in-set_targets_example :
    (targets : List CoverageTarget) × (get_targets request 1 2 saved ≡ (ok targets, saved))
    × ((w h : ℕ) → required_in targets w h ≡ asked wanted w h)
required_in-set_targets_example = required_in-set_targets request 1 2 2 wanted plan saved is_saved
