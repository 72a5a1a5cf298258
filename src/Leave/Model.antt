-- ===== src/Leave/Model.antt =====
-- database/schema/leave.ts and leave/leave.repository.ts. Dates are days since 1970-01-01, and
-- amounts of leave are counted in hundredths of a day, so that half a day is a number.
use vellora_backend.Prelude.{
  ℕ, suc, Bool, true, false, not, ◌&&◌, ◌||◌, Option, none, some, String, List, ◌∷◌, ◌==◌, leb,
  if◌then◌else◌, take,
}
use vellora_backend.Nest.{Action, Done, ok, err, database_error, pure, gets, modify, ◌>>=◌, ◌>>◌}
use vellora_backend.Database.{find, select, update}
use vellora_backend.Access.Principal.{Request}

pub data Status : Type 0 where
  requested approved rejected cancelled : Status

pub data StepStatus : Type 0 where
  pending approved rejected : StepStatus

pub record ApprovalStep : Type 0 where
  pub step : ℕ
  pub role : Option String
  pub status : StepStatus
  pub by : Option ℕ
  pub at : Option ℕ
  pub note : Option String

-- Of the two JSON rules the source reads `perYear` and `maxDays`.
pub record LeaveType : Type 0 where
  pub id : ℕ
  pub company_id : ℕ
  pub name : String
  pub paid : Bool
  pub color : String
  pub requires_chain : Bool
  pub accrual_per_year : Option ℕ
  pub carryover_max_days : Option ℕ
  pub max_per_year : Option ℕ
  pub active : Bool

pub record LeaveRequest : Type 0 where
  pub id : ℕ
  pub company_id : ℕ
  pub employee_id : ℕ
  pub type_id : ℕ
  pub start_date : ℕ
  pub end_date : ℕ
  pub half_day : Bool
  pub days : ℕ
  pub reason : Option String
  pub status : Status
  pub approver_chain : List ApprovalStep
  pub current_step : ℕ
  pub created_at : ℕ

pub record LeaveBalance : Type 0 where
  pub id : ℕ
  pub company_id : ℕ
  pub employee_id : ℕ
  pub type_id : ℕ
  pub year : ℕ
  pub entitled : ℕ
  pub taken : ℕ
  pub pending : ℕ

pub record Holiday : Type 0 where
  pub id : ℕ
  pub company_id : ℕ
  pub store_id : Option ℕ
  pub country : Option String
  pub date : ℕ
  pub name : String
  pub recurring : Bool

pub record BlackoutDate : Type 0 where
  pub id : ℕ
  pub company_id : ℕ
  pub store_id : Option ℕ
  pub start_date : ℕ
  pub end_date : ℕ
  pub reason : Option String

-- The column of the employee table that the request list looks at.
pub record Employee : Type 0 where
  pub id : ℕ
  pub company_id : ℕ
  pub primary_store_id : Option ℕ

pub record AuditEntry : Type 0 where
  pub company_id : ℕ
  pub actor_user_id : Option ℕ
  pub action : String
  pub target_id : ℕ
  pub days : ℕ
  pub type_id : ℕ

pub record Db : Type 0 where
  pub types : List LeaveType
  pub requests : List LeaveRequest
  pub balances : List LeaveBalance
  pub holidays : List Holiday
  pub blackouts : List BlackoutDate
  pub employees : List Employee
  pub audit : List AuditEntry
  pub drawn : ℕ

abbrev pub is_status : Status → Status → Bool
is_status requested requested = true
is_status Status.approved Status.approved = true
is_status Status.rejected Status.rejected = true
is_status cancelled cancelled = true
is_status _ _ = false

abbrev pub request_by_id : ℕ → ℕ → LeaveRequest → Bool
request_by_id company id q = q.company_id == company && q.id == id

abbrev pub type_by_id : ℕ → ℕ → LeaveType → Bool
type_by_id company id t = t.company_id == company && t.id == id

abbrev pub balance_by_id : ℕ → ℕ → LeaveBalance → Bool
balance_by_id company id b = b.company_id == company && b.id == id

-- The unique key of the balance table, and a row of the tenant under it.
abbrev pub balance_key : ℕ → ℕ → ℕ → LeaveBalance → Bool
balance_key employee type year b = b.employee_id == employee && b.type_id == type && b.year == year

abbrev pub own_balance : ℕ → ℕ → ℕ → ℕ → LeaveBalance → Bool
own_balance company employee type year b =
    b.company_id == company && balance_key employee type year b

abbrev pub holiday_in_range : ℕ → ℕ → ℕ → Holiday → Bool
holiday_in_range company start end_ h =
    h.company_id == company && leb start h.date && leb h.date end_

abbrev pub blackout_in_range : ℕ → ℕ → ℕ → BlackoutDate → Bool
blackout_in_range company start end_ b =
    b.company_id == company && leb b.start_date end_ && leb start b.end_date

-- `inArray(status, ['requested', 'approved'])` and the overlap of the two windows.
abbrev pub overlaps : ℕ → ℕ → ℕ → LeaveRequest → Bool
overlaps company start end_ q =
    q.company_id == company
    && (is_status q.status requested || is_status q.status Status.approved)
    && leb q.start_date end_
    && leb start q.end_date

module _ (r : Request) (company : ℕ) where
  abbrev draw : Action Db ℕ
  draw d = (ok (r.uuid d.drawn), record d { drawn = suc d.drawn })

  unfoldable pub find_type : ℕ → Action Db (Option LeaveType)
  find_type id = gets λ d. find (type_by_id company id) d.types

  unfoldable pub find_request : ℕ → Action Db (Option LeaveRequest)
  find_request id = gets λ d. find (request_by_id company id) d.requests

  unfoldable pub insert_request : (ℕ → LeaveRequest) → Action Db LeaveRequest
  insert_request row = do
    id ← draw
    modify (λ d. record d { requests = row id ∷ d.requests })
    pure (row id)

  unfoldable pub update_request :
      ℕ → (LeaveRequest → LeaveRequest) → Action Db (Option LeaveRequest)
  update_request id f d =
      let t = update (request_by_id company id) f d.requests in
      (ok (find (request_by_id company id) t), record d { requests = t })

  unfoldable pub holidays_in_range : ℕ → ℕ → Action Db (List Holiday)
  holidays_in_range start end_ = gets λ d. select (holiday_in_range company start end_) d.holidays

  unfoldable pub blackouts_in_range : ℕ → ℕ → Action Db (List BlackoutDate)
  blackouts_in_range start end_ =
      gets λ d. select (blackout_in_range company start end_) d.blackouts

  -- The excluded request is dropped after the limit of the query.
  unfoldable pub overlapping_requests : ℕ → ℕ → ℕ → Action Db (List LeaveRequest)
  overlapping_requests start end_ exclude = gets λ d.
      select (λ q. not (q.id == exclude))
        (take 100 (select (overlaps company start end_) d.requests))

  unfoldable pub find_balance : ℕ → ℕ → ℕ → Action Db (Option LeaveBalance)
  find_balance employee type year =
      gets λ d. find (own_balance company employee type year) d.balances

  -- `onConflictDoUpdate` sets `entitled` alone. A conflicting row that the tenant cannot see is an
  -- error of the database.
  unfoldable pub upsert_balance : ℕ → ℕ → ℕ → ℕ → ℕ → ℕ → Action Db Done
  upsert_balance employee type year awarded used reserved d =
      elim (find (balance_key employee type year) d.balances) [
        | none ↦
            (do
              id ← draw
              modify λ d. record d {
                balances =
                    record {
                      id = id;
                      company_id = company;
                      employee_id = employee;
                      type_id = type;
                      year = year;
                      entitled = awarded;
                      taken = used;
                      pending = reserved;
                    }
                    ∷ d.balances;
              })
              d
        | some b ↦
            if b.company_id == company
            then (
              ok tt,
              record d {
                balances =
                    update (balance_key employee type year) (λ b. record b { entitled = awarded })
                      d.balances;
              },
            )
            else (err database_error, d)
      ]

  unfoldable pub update_balance : ℕ → ℕ → ℕ → Action Db Done
  update_balance id used reserved = modify λ d. record d {
    balances =
        update (balance_by_id company id) (λ b. record b { taken = used; pending = reserved })
          d.balances;
  }
