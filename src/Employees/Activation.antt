-- ===== src/Employees/Activation.antt =====
-- employees/activation-requests.service.ts and its repository, with the tables of employees, users and
-- memberships as far as they are read. The invitation of the identity service is a parameter, and a
-- notice to an approver is recorded.
use vellora_backend.Prelude.{
  ℕ, suc, ◌+◌, not, ◌&&◌, Option, none, some, String, List, [], ◌∷◌, map, ◌==◌, leb, str_eq,
  if◌then◌else◌, is_some, sort_by, unless_given,
}
use vellora_backend.Nest.{
  Action, Done, ok, err, bad_request, conflict, forbidden, not_found, database_error, pure, gets,
  modify, or_throw, throw_if, ◌>>=◌, ◌>>◌,
}
use vellora_backend.Database.{find, select, update}
use vellora_backend.Access.Principal.{Request, MembershipRole, company, current_user_id}
use vellora_backend.Access.Limits.{assert_active_user_limit}
use vellora_backend.Attendance.Model.{latest}
use vellora_backend.Employees.Model.{
  ActivationRequest, Db, Membership, Notice, Origin, RaiseInput, RequestStatus, active, approved,
  billed, by_id, cooldown_ms, created, is_active, is_approver, is_assignable, is_cooling,
  is_created, is_pending, is_waiting, member_key, of_email, pending, rejected, role_of,
  same_request_status,
}

module _ (invite : String → Option String → Option ℕ) (r : Request) (c : ℕ) where
  unfoldable pub list : Option RequestStatus → Action Db (List ActivationRequest)
  list status = gets λ d.
      sort_by (λ a b. leb b.created_at a.created_at)
        (select
          (λ q. q.company_id == c && unless_given (λ s. same_request_status q.status s) status)
          d.requests)

  unfoldable pub find_by_id : ℕ → Action Db (Option ActivationRequest)
  find_by_id id = gets λ d. find (by_id c id) d.requests

  unfoldable pub find_latest_for_email : String → Action Db (Option ActivationRequest)
  find_latest_for_email email =
      gets λ d. latest (λ q. q.created_at) (select (of_email c email) d.requests)

  unfoldable pub create : (ℕ → ActivationRequest) → Action Db ActivationRequest
  create row d =
      let q : ActivationRequest = row (r.uuid d.drawn) in
      (ok q, record d { requests = q ∷ d.requests; drawn = suc d.drawn })

  unfoldable pub update_request :
      ℕ → (ActivationRequest → ActivationRequest) → Action Db (Option ActivationRequest)
  update_request id f d =
      let t = update (by_id c id) f d.requests in
      (ok (find (by_id c id) t), record d { requests = t })

  abbrev pub approver_user_ids : List Membership → List ℕ
  approver_user_ids ms =
      map (λ m. m.user_id)
        (select (λ m. m.company_id == c && is_active m.status && is_approver m.role) ms)

  unfoldable pub notify_approvers : String → MembershipRole → Action Db Done
  notify_approvers email role = modify λ d. record d {
    notices =
        append
          (map (λ u. record { company_id = c; user_id = u; email = email; role = role })
            (approver_user_ids d.memberships))
          d.notices;
  }
    where
      append : List Notice → List Notice → List Notice
      append [] t = t
      append (n ∷ ns) t = append ns (n ∷ t)

  abbrev pub origin_of : RaiseInput → Origin
  origin_of input = elim input.source [ none ↦ created | some s ↦ s ]

  abbrev pub new_request : RaiseInput → ℕ → ActivationRequest
  new_request input id = record {
    id = id;
    company_id = c;
    employee_id = input.employee_id;
    membership_id = none;
    email = input.email;
    requested_role = input.role;
    status = pending;
    source = origin_of input;
    requested_by = current_user_id r.user;
    decided_by = none;
    decided_at = none;
    reject_reason = none;
    cooldown_until = none;
    created_at = r.now;
  }

  unfoldable pub raise : RaiseInput → Action Db ActivationRequest
  unfolding find_latest_for_email create notify_approvers
  raise input = do
    throw_if (is_created (origin_of input) && not (is_assignable (role_of r.user) input.role))
        (forbidden "You cannot create a user at or above your own role.")
    last ← find_latest_for_email input.email
    throw_if (is_waiting last) (conflict "An activation request for this email is already pending.")
    throw_if (is_cooling r.now last)
        (forbidden "This applicant was recently rejected — they may re-apply after 24 hours.")
    request ← create (new_request input)
    notify_approvers input.email input.role
    pure request

  -- The user of the email, or a new one with the uid of the invitation.
  unfoldable pub user_for : String → ℕ → Action Db ℕ
  user_for email uid d = elim (find (λ u. str_eq u.email email) d.users) [
    | some u ↦ (ok u.id, d)
    | none ↦
        if is_some (find (λ u. u.supabase_uid == uid) d.users) then (err database_error, d) else (
          ok (r.uuid d.drawn),
          record d {
            users = record { id = r.uuid d.drawn; email = email; supabase_uid = uid } ∷ d.users;
            drawn = suc d.drawn;
          },
        )
  ]

  -- `insert … onConflictDoUpdate({ set: { role, status: 'active' } })`
  unfoldable pub upsert_membership : ℕ → MembershipRole → Action Db ℕ
  upsert_membership user role d = elim (find (member_key user c) d.memberships) [
    | some m ↦ (
      ok m.id,
      record d {
        memberships =
            update (member_key user c) (λ x. record x { role = role; status = active })
              d.memberships;
      },
    )
    | none ↦ (
      ok (r.uuid d.drawn),
      record d {
        memberships =
            record {
              id = r.uuid d.drawn;
              user_id = user;
              company_id = c;
              role = role;
              scope_type = company;
              scope_ids = [];
              status = active;
            }
            ∷ d.memberships;
        drawn = suc d.drawn;
      },
    )
  ]

  unfoldable pub link_employee : Option ℕ → ℕ → Action Db Done
  link_employee none user d = (ok tt, d)
  link_employee (some id) user d = (
    ok tt,
    record d {
      employees = update (λ e. e.id == id) (λ e. record e { user_id = some user }) d.employees;
    },
  )

  -- One transaction: its only failing statement is its first write.
  unfoldable pub provision_active_membership : ActivationRequest → ℕ → Action Db ℕ
  unfolding user_for upsert_membership link_employee
  provision_active_membership q uid = do
    user ← user_for q.email uid
    membership ← upsert_membership user q.requested_role
    link_employee q.employee_id user
    pure membership

  unfoldable pub within_seats : Action Db Done
  unfolding assert_active_user_limit
  within_seats d = (assert_active_user_limit c 1 (billed d), d)

  unfoldable pub approve : ℕ → Option String → Action Db (Option ActivationRequest)
  unfolding find_by_id within_seats provision_active_membership update_request
  approve id redirect_to = do
    request ← or_throw (← find_by_id id) (not_found "Activation request not found.")
    throw_if (not (is_pending request.status))
        (bad_request "This request has already been decided.")
    within_seats
    uid ←
        or_throw (invite request.email redirect_to)
          (bad_request "Could not send the invite (Supabase not configured). Activation aborted.")
    membership ← provision_active_membership request uid
    update_request id λ q. record q {
      status = approved;
      membership_id = some membership;
      decided_by = current_user_id r.user;
      decided_at = some r.now;
    }

  unfoldable pub reject : ℕ → Option String → Action Db (Option ActivationRequest)
  unfolding find_by_id update_request
  reject id reason = do
    request ← or_throw (← find_by_id id) (not_found "Activation request not found.")
    throw_if (not (is_pending request.status))
        (bad_request "This request has already been decided.")
    update_request id λ q. record q {
      status = rejected;
      reject_reason = reason;
      decided_by = current_user_id r.user;
      decided_at = some r.now;
      cooldown_until = some (r.now + cooldown_ms);
    }
