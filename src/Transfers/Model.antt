-- ===== src/Transfers/Model.antt =====
-- database/schema/transfers.ts, the link table of database/schema/employees.ts, and
-- transfers/transfers.repository.ts. Dates are days since 1970-01-01: the source compares ISO dates
-- as texts, which is the same order.
use vellora_backend.Prelude.{
  ℕ, Bool, true, false, ◌&&◌, Option, none, some, String, List, ◌∷◌, ◌==◌, leb, if◌then◌else◌, suc,
}
use vellora_backend.Nest.{Action, Done, ok, err, database_error, pure, gets, modify, ◌>>=◌, ◌>>◌}
use vellora_backend.Database.{find, select, update, delete}
use vellora_backend.Access.Principal.{Request}

pub data Kind : Type 0 where
  temporary permanent : Kind

pub data Status : Type 0 where
  requested approved active completed rejected cancelled : Status

pub data Relation : Type 0 where
  secondary guest peak : Relation

pub record Transfer : Type 0 where
  pub id : ℕ
  pub company_id : ℕ
  pub employee_id : ℕ
  pub from_store_id : Option ℕ
  pub to_store_id : ℕ
  pub kind : Kind
  pub start_date : Option ℕ
  pub end_date : Option ℕ
  pub reason : Option String
  pub status : Status
  pub link_id : Option ℕ
  pub requested_by : Option ℕ
  pub approved_by : Option ℕ
  pub created_at : ℕ

pub record EmployeeStore : Type 0 where
  pub id : ℕ
  pub company_id : ℕ
  pub employee_id : ℕ
  pub store_id : ℕ
  pub relation : Relation
  pub active : Bool

pub record Employee : Type 0 where
  pub id : ℕ
  pub company_id : ℕ
  pub primary_store_id : Option ℕ

-- A row of the audit log that `auditTransfer` writes.
pub record AuditEntry : Type 0 where
  pub company_id : ℕ
  pub actor_user_id : Option ℕ
  pub action : String
  pub target_id : ℕ

-- The tables that the service reaches, and how many ids the request has drawn.
pub record Db : Type 0 where
  pub transfers : List Transfer
  pub links : List EmployeeStore
  pub employees : List Employee
  pub audit : List AuditEntry
  pub drawn : ℕ

abbrev pub is_kind : Kind → Kind → Bool
is_kind temporary temporary = true
is_kind permanent permanent = true
is_kind _ _ = false

abbrev pub is_status : Status → Status → Bool
is_status requested requested = true
is_status approved approved = true
is_status active active = true
is_status completed completed = true
is_status rejected rejected = true
is_status cancelled cancelled = true
is_status _ _ = false

-- The row with an id, as the tenant sees it.
abbrev pub by_id : ℕ → ℕ → Transfer → Bool
by_id company id t = t.company_id == company && t.id == id

abbrev pub employee_by_id : ℕ → ℕ → Employee → Bool
employee_by_id company id e = e.company_id == company && e.id == id

abbrev pub link_by_id : ℕ → ℕ → EmployeeStore → Bool
link_by_id company id l = l.company_id == company && l.id == id

-- The unique key of the link table.
abbrev pub link_of : ℕ → ℕ → EmployeeStore → Bool
link_of employee store l = l.employee_id == employee && l.store_id == store

-- `lte(column, today)`; a null column passes no comparison.
abbrev pub reached : Option ℕ → ℕ → Bool
reached none today = false
reached (some d) today = leb d today

abbrev pub is_due_to_activate : ℕ → ℕ → Transfer → Bool
is_due_to_activate company today t =
    t.company_id == company
    && is_kind t.kind temporary
    && is_status t.status approved
    && reached t.start_date today

abbrev pub is_due_to_revert : ℕ → ℕ → Transfer → Bool
is_due_to_revert company today t =
    t.company_id == company
    && is_kind t.kind temporary
    && is_status t.status active
    && reached t.end_date today

module _ (r : Request) (company : ℕ) where
  -- The next id that the database draws.
  abbrev pub draw : Action Db ℕ
  draw d = (ok (r.uuid d.drawn), record d { drawn = suc d.drawn })

  unfoldable pub find_transfer : ℕ → Action Db (Option Transfer)
  find_transfer id = gets λ d. find (by_id company id) d.transfers

  unfoldable pub find_employee : ℕ → Action Db (Option Employee)
  find_employee id = gets λ d. find (employee_by_id company id) d.employees

  unfoldable pub insert_transfer : (ℕ → Transfer) → Action Db (Option Transfer)
  insert_transfer row = do
    id ← draw
    modify (λ d. record d { transfers = row id ∷ d.transfers })
    pure (some (row id))

  -- The row that `returning` hands back is missing when no row has the id.
  unfoldable pub update_transfer : ℕ → (Transfer → Transfer) → Action Db (Option Transfer)
  update_transfer id f d =
      let t = update (by_id company id) f d.transfers in
      (ok (find (by_id company id) t), record d { transfers = t })

  unfoldable pub set_primary_store : ℕ → ℕ → Action Db Done
  set_primary_store employee store = modify λ d. record d {
    employees =
        update (employee_by_id company employee) (λ e. record e { primary_store_id = some store })
          d.employees;
  }

  -- `onConflictDoUpdate` on the unique key. A conflicting row that the tenant cannot see is an error
  -- of the database.
  unfoldable pub add_link : ℕ → ℕ → Action Db ℕ
  add_link employee store d = elim (find (link_of employee store) d.links) [
    | none ↦
        (do
          id ← draw
          modify (λ d. record d {
            links =
                record {
                  id = id;
                  company_id = company;
                  employee_id = employee;
                  store_id = store;
                  relation = guest;
                  active = true;
                }
                ∷ d.links;
          })
          pure id)
          d
    | some l ↦
        if l.company_id == company
        then (
          ok l.id,
          record d {
            links =
                update (link_of employee store) (λ l. record l { relation = guest; active = true })
                  d.links;
          },
        )
        else (err database_error, d)
  ]

  unfoldable pub remove_link : ℕ → Action Db Done
  remove_link id = modify λ d. record d { links = delete (link_by_id company id) d.links }

  unfoldable pub due_to_activate : ℕ → Action Db (List Transfer)
  due_to_activate today = gets λ d. select (is_due_to_activate company today) d.transfers

  unfoldable pub due_to_revert : ℕ → Action Db (List Transfer)
  due_to_revert today = gets λ d. select (is_due_to_revert company today) d.transfers
