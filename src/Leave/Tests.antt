-- ===== src/Leave/Tests.antt =====
-- leave/ on small inputs.
use vellora_backend.Prelude.{◌+◌, ◌-◌, ◌*◌, ◌≤◌, ◌≡◌, refl, true, false, none, some, [], ◌∷◌, arith}
use vellora_backend.Access.Principal.{Request, AuthenticatedUser, owner}
use vellora_backend.Leave.Model.{LeaveType, Db, Holiday}
use vellora_backend.Leave.Calendar.{year_of, count_leave_days}
use vellora_backend.Leave.Service.{create_request, approve, reject, cancel, adjust_balance}
use vellora_backend.Leave.Rules.{CreateRequestDto}
use vellora_backend.Leave.Ledger.{IsLedger}
use vellora_backend.Leave.Ledger.Handlers.{
  CanAdjust, approve-IsLedger, reject-IsLedger, cancel-IsLedger,
}
use vellora_backend.Leave.Ledger.Creation.{CanCreate, create_request-IsLedger}
use vellora_backend.Leave.WorkingDays.{count_leave_days-split, count_leave_days-weeks}

abbrev boss : AuthenticatedUser
boss = record {
  supabase_uid = 90;
  user_id = 5;
  memberships = [];
  company_id = some 1;
  role = some owner;
  scope_type = none;
  scope_ids = none;
  platform_role = none;
}

abbrev request : Request
request = record { user = some boss; now = 1000; uuid = λ n. 70 + n }

abbrev vacation : LeaveType
vacation = record {
  id = 3;
  company_id = 1;
  name = "Vacation";
  paid = true;
  color = "#0a0";
  requires_chain = false;
  accrual_per_year = none;
  carryover_max_days = none;
  max_per_year = none;
  active = true;
}

abbrev empty : Db
empty = record {
  types = vacation ∷ [];
  requests = [];
  balances = [];
  holidays = [];
  blackouts = [];
  employees = [];
  audit = [];
  drawn = 0;
}

-- A week from 2024-10-04, a Friday.
abbrev week_off : CreateRequestDto
week_off = record {
  employee_id = 8;
  type_id = 3;
  start_date = 20000;
  end_date = 20006;
  half_day = none;
  reason = none;
}

the_year : year_of 20000 ≡ 2024
unfolding year_of
the_year = refl

five_days : count_leave_days 20000 20006 [] ≡ 5
unfolding count_leave_days
five_days = refl

abbrev asked : Db
asked = (create_request request 1 week_off empty).1

empty-IsLedger : IsLedger 1 empty
empty-IsLedger = record { balance_keys = λ i. tt; request_keys = λ i. tt; agrees = λ e t y. refl }

empty-CanCreate : CanCreate request 1 week_off empty
empty-CanCreate = record { own = refl; fresh_request = refl; fresh_balance = refl }

create_request-IsLedger_example : IsLedger 1 (create_request request 1 week_off empty).1
create_request-IsLedger_example =
    create_request-IsLedger request 1 week_off empty empty-IsLedger empty-CanCreate

asked-CanAdjust : CanAdjust request 1 70 asked
unfolding create_request year_of count_leave_days adjust_balance
asked-CanAdjust = record { own = λ u found. refl; fresh = refl }

approve-IsLedger_example : IsLedger 1 (approve request 1 70 none asked).1
approve-IsLedger_example =
    approve-IsLedger request 1 70 none asked
      (create_request-IsLedger request 1 week_off empty empty-IsLedger empty-CanCreate)
      asked-CanAdjust

reject-IsLedger_example : IsLedger 1 (reject request 1 70 none asked).1
reject-IsLedger_example =
    reject-IsLedger request 1 70 none asked
      (create_request-IsLedger request 1 week_off empty empty-IsLedger empty-CanCreate)
      asked-CanAdjust

cancel-IsLedger_example : IsLedger 1 (cancel request 1 70 asked).1
cancel-IsLedger_example =
    cancel-IsLedger request 1 70 asked
      (create_request-IsLedger request 1 week_off empty empty-IsLedger empty-CanCreate)
      asked-CanAdjust

abbrev monday : Holiday
monday = record {
  id = 1;
  company_id = 1;
  store_id = none;
  country = none;
  date = 20003;
  name = "Founders";
  recurring = false;
}

count_leave_days-split_example :
    count_leave_days 20000 20006 (monday ∷ [])
    ≡ count_leave_days 20000 20002 (monday ∷ []) + count_leave_days (20002 + 1) 20006 (monday ∷ [])
count_leave_days-split_example =
    count_leave_days-split 20000 20002 20006 (monday ∷ []) (omega arith) (omega arith)

count_leave_days-weeks_example :
    (count_leave_days 20000 (20000 + 7 * 2 - 1) [] ≡ 5 * 2)
    × (count_leave_days 20000 (20000 + 7 * 2 - 1) (monday ∷ []) ≤ 5 * 2)
count_leave_days-weeks_example = count_leave_days-weeks 20000 1 (monday ∷ [])
