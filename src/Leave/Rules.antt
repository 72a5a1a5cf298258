-- ===== src/Leave/Rules.antt =====
-- What the handlers of leave/leave.service.ts decide of a request, a balance or a caller, and the bodies
-- of their requests.
use mathlib.Core.Option.{get_or}
use vellora_backend.Prelude.{
  ℕ, zero, suc, ◌+◌, ◌-◌, ◌*◌, Bool, true, false, ◌&&◌, ◌||◌, Option, none, some, String, List, [],
  ◌∷◌, ◌==◌, leb, if◌then◌else◌, unless_given, includes, length, get_elem?, set,
}
use vellora_backend.Database.{find}
use vellora_backend.Access.Principal.{MembershipRole, AuthenticatedUser}
use vellora_backend.Leave.Model.{
  Status, cancelled, StepStatus, pending, ApprovalStep, LeaveType, LeaveRequest, Holiday, is_status,
  Employee,
}
use vellora_backend.Leave.Calendar.{count_leave_days}

-- A signed change of a balance. `negsuc n` is -(n + 1).
pub data Change : Type 0 where
  plus : ℕ → Change
  minus_suc : ℕ → Change

abbrev pub negated : ℕ → Change
negated zero = plus 0
negated (suc n) = minus_suc n

-- `Math.max(0, amount + change)`
abbrev pub add_floor : ℕ → Change → ℕ
add_floor amount (plus n) = amount + n
add_floor amount (minus_suc n) = amount - suc n

pub record CreateRequestDto : Type 0 where
  pub employee_id : ℕ
  pub type_id : ℕ
  pub start_date : ℕ
  pub end_date : ℕ
  pub half_day : Option Bool
  pub reason : Option String

pub record ListRequestsDto : Type 0 where
  pub employee_id : Option ℕ
  pub status : Option Status
  pub mine : Option Bool

pub record SetBalanceDto : Type 0 where
  pub employee_id : ℕ
  pub type_id : ℕ
  pub year : ℕ
  pub entitled : ℕ

-- A day of leave, and half of one.
abbrev pub one_day : ℕ
one_day = 100

abbrev pub is_true : Option Bool → Bool
is_true o = get_or o false

abbrev pub is_manager : Option AuthenticatedUser → Bool
is_manager none = false
is_manager (some u) = elim u.role [
  | none ↦ false
  | some MembershipRole.employee ↦ false
  | some _ ↦ true
]

abbrev pending_step : ℕ → String → ApprovalStep
pending_step step role = record {
  step = step;
  role = some role;
  status = pending;
  by = none;
  at = none;
  note = none;
}

-- Two steps for a type that needs a chain, else one.
abbrev pub build_chain : LeaveType → List ApprovalStep
build_chain type =
    if type.requires_chain
    then pending_step 0 "store_manager" ∷ pending_step 1 "hr" ∷ []
    else pending_step 0 "store_manager" ∷ []

-- `const step = chain[i]; if (step) { step.status = …; … }`
abbrev pub decide_step :
    StepStatus → Option ℕ → ℕ → Option String → List ApprovalStep → ℕ → List ApprovalStep
decide_step status by now note chain i = elim (get_elem? chain i) [
  | none ↦ chain
  | some s ↦ set chain i (record s { status = status; by = by; at = some now; note = note })
]

-- The day count that a request is charged, in hundredths.
abbrev pub charged_days : CreateRequestDto → List Holiday → ℕ
charged_days dto holidays =
    if is_true dto.half_day
    then 50
    else one_day * count_leave_days dto.start_date dto.end_date holidays

abbrev pub matches_filters : ℕ → ListRequestsDto → LeaveRequest → Bool
matches_filters company dto q =
    q.company_id == company
    && unless_given (λ e. q.employee_id == e) dto.employee_id
    && unless_given (is_status q.status) dto.status

-- `r.employee?.primaryStoreId && scopeStoreIds.includes(...)`, on the joined employee row.
abbrev pub employee_in_scope : ℕ → List Employee → List ℕ → LeaveRequest → Bool
employee_in_scope company employees scope q =
    elim (find (λ e. e.company_id == company && e.id == q.employee_id) employees) [
      | none ↦ false
      | some e ↦ elim e.primary_store_id [ none ↦ false | some s ↦ includes scope s ]
    ]

-- `nextStep >= chain.length`
abbrev pub is_final : LeaveRequest → Bool
is_final req = leb (length req.approver_chain) (req.current_step + 1)

abbrev pub is_closed : Status → Bool
is_closed s = is_status s Status.rejected || is_status s cancelled
