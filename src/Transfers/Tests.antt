-- ===== src/Transfers/Tests.antt =====
-- transfers/ on small inputs.
use vellora_backend.Prelude.{◌+◌, ◌≡◌, refl, true, none, some, [], ◌∷◌, map, length}
use vellora_backend.Nest.{ok}
use vellora_backend.Database.{find, select}
use vellora_backend.Access.Principal.{Request, AuthenticatedUser, owner}
use vellora_backend.Transfers.Model.{
  Transfer, EmployeeStore, Db, requested, approved, active, temporary, secondary, link_by_id,
  is_due_to_activate, is_due_to_revert,
}
use vellora_backend.Transfers.Service.{run_scheduled_sweep, cancel, approve}
use vellora_backend.Transfers.Sweep.Rows.{IsKeyed, view}
use vellora_backend.Transfers.Sweep.Settled.{CanLinkDue, sweep_settles, activated, reverted}
use vellora_backend.Transfers.Sweep.Twice.{sweep-sweep}
use vellora_backend.Transfers.Lifecycle.{approves, run, run-Follows, Follows, status_of}
use vellora_backend.Transfers.Links.{StartsNow, cancel-approve_links, cancel-approve_loses_link}

abbrev boss : AuthenticatedUser
boss = record {
  supabase_uid = 90;
  user_id = 5;
  memberships = [];
  company_id = some 1;
  role = some owner;
  scope_type = none;
  scope_ids = none;
  platform_role = none;
}

-- 2024-10-04 at midnight.
abbrev request : Request
request = record { user = some boss; now = 1728000000000; uuid = λ n. 70 + n }

abbrev visit : Transfer
visit = record {
  id = 1;
  company_id = 1;
  employee_id = 8;
  from_store_id = some 2;
  to_store_id = 3;
  kind = temporary;
  start_date = some 20000;
  end_date = some 20005;
  reason = none;
  status = requested;
  link_id = none;
  requested_by = some 5;
  approved_by = none;
  created_at = 0;
}

abbrev due : Transfer
due = record visit { id = 2; status = approved }

abbrev over : Transfer
over = record visit {
  id = 3;
  to_store_id = 4;
  end_date = some 20000;
  status = active;
  link_id = some 60;
}

abbrev tables : Db
tables = record {
  transfers = visit ∷ due ∷ over ∷ [];
  links = [];
  employees = [];
  audit = [];
  drawn = 0;
}

tables-IsKeyed : IsKeyed tables.transfers
tables-IsKeyed = (refl, (refl, (refl, tt)))

tables-CanLinkDue : CanLinkDue request 1 tables
tables-CanLinkDue = (refl, tt)

sweep_settles_example :
    (d' : Db) × (run_scheduled_sweep request 1 tables ≡ (
      ok (
        length (select (is_due_to_activate 1 20000) tables.transfers),
        length (select (is_due_to_revert 1 20000) (map (activated 1 20000) tables.transfers)),
      ),
      d',
    ))
    × (map view d'.transfers ≡ map (λ t. reverted 1 20000 (activated 1 20000 t)) tables.transfers)
sweep_settles_example = sweep_settles request 1 tables tables-IsKeyed tables-CanLinkDue

-- A later request of the same day.
abbrev late : Request
late = record request { now = request.now + 3600000 }

sweep-sweep_example :
    run_scheduled_sweep late 1 (run_scheduled_sweep request 1 tables).1
    ≡ (ok (0, 0), (run_scheduled_sweep request 1 tables).1)
sweep-sweep_example = sweep-sweep request 1 late tables refl tables-IsKeyed tables-CanLinkDue

run-Follows_example :
    Follows (status_of 1 1 tables) (status_of 1 1 (run request 1 (approves 1) tables).1)
run-Follows_example = run-Follows request 1 (approves 1) tables 1 1

visit-StartsNow : StartsNow request 1 1 visit tables
visit-StartsNow = record { found = refl; pending = refl; stays = refl; begun = refl; inside = refl }

cancel-approve_links_example :
    (cancel request 1 1 (approve request 1 1 tables).1).1.links ≡ tables.links
cancel-approve_links_example =
    cancel-approve_links request 1 1 visit tables visit-StartsNow refl refl

-- The employee works at the destination already, as a secondary store.
abbrev lasting : EmployeeStore
lasting = record {
  id = 50;
  company_id = 1;
  employee_id = 8;
  store_id = 3;
  relation = secondary;
  active = true;
}

abbrev linked : Db
linked = record tables { links = lasting ∷ [] }

linked-StartsNow : StartsNow request 1 1 visit linked
linked-StartsNow = record {
  found = refl;
  pending = refl;
  stays = refl;
  begun = refl;
  inside = refl;
}

cancel-approve_loses_link_example :
    find (link_by_id 1 50) (cancel request 1 1 (approve request 1 1 linked).1).1.links ≡ none
cancel-approve_loses_link_example =
    cancel-approve_loses_link request 1 1 visit lasting linked linked-StartsNow refl refl
