-- ===== src/Transfers/Links.antt =====
-- The guest link of a temporary transfer, from its approval to its cancellation.
use vellora_backend.Prelude.{
  ℕ, ◌≡◌, refl, Bool, true, false, none, some, List, [], ◌∷◌, arith, ◌==◌, ◌∙◌,
}
use vellora_backend.Database.{unless_undefined, find, update, delete}
use vellora_backend.Database.Laws.{find-update, find-holds, delete-none}
use vellora_backend.Access.Principal.{Request, scoped_store_ids, current_user_id, is_out_of_scope}
use vellora_backend.Transfers.Model.{
  Transfer, EmployeeStore, requested, active, temporary, Db, by_id, link_of, link_by_id,
  update_transfer,
}
use vellora_backend.Transfers.Service.{approve, activate, cancel, starts_now, day_of}

module _ (r : Request) (company id : ℕ) where
  -- What `approve` does with a pending temporary transfer whose window has begun.
  pub record StartsNow (t : Transfer) (d : Db) : Type 0 where
    pub found : find (by_id company id) d.transfers ≡ some t
    pub pending : t.status ≡ requested
    pub stays : t.kind ≡ temporary
    pub begun : starts_now t (day_of r.now) ≡ true
    pub inside : is_out_of_scope (scoped_store_ids r.user) (some t.to_store_id) ≡ false

  approve-activate :
      (t : Transfer) (d : Db) → StartsNow t d → approve r company id d ≡ activate r company id t d
  unfolding approve
  approve-activate t d s = ground arith

  cancel_active :
      (t : Transfer) (l : ℕ) (d : Db)
      → find (by_id company id) d.transfers ≡ some t
      → t.status ≡ active
      → t.link_id ≡ some l
      → (cancel r company id d).1.links ≡ delete (link_by_id company l) d.links
  unfolding cancel update_transfer
  cancel_active t l d found live linked = ground arith

  abbrev started : Transfer → ℕ → Transfer
  started t l = record t {
    status = active;
    link_id = some l;
    approved_by = unless_undefined (current_user_id r.user) t.approved_by;
  }

  found_after :
      (t : Transfer) (l : ℕ) (rows : List Transfer)
      → find (by_id company id) rows ≡ some t
      → find (by_id company id) (update (by_id company id) (λ u. started u l) rows)
        ≡ some (started t l)
  found_after t l rows found = rw (
    find-update (by_id company id) (by_id company id) (λ u. started u l) rows (λ w. refl),
    found,
    find-holds (by_id company id) rows t found,
  )

  activate_free :
      (t : Transfer) (d : Db)
      → find (by_id company id) d.transfers ≡ some t
      → find (link_of t.employee_id t.to_store_id) d.links ≡ none
      → let d1 = (activate r company id t d).1 in
        (find (by_id company id) d1.transfers ≡ some (started t (r.uuid d.drawn)))
        × (delete (link_by_id company (r.uuid d.drawn)) d1.links
            ≡ delete (link_by_id company (r.uuid d.drawn)) d.links)
  unfolding activate
  activate_free t d found free =
      let written : (activate r company id t d).1.transfers
          ≡ update (by_id company id) (λ u. started u (r.uuid d.drawn)) d.transfers =
        ground (arith, free) in
      (rw written (found_after t (r.uuid d.drawn) d.transfers found), ground (arith, free))

  -- Approving a temporary transfer at once and cancelling it afterwards leaves the links of the
  -- employees as they were, if the employee had no link to the destination and the id that is drawn
  -- for the guest link is new.
  pub cancel-approve_links :
      (t : Transfer) (d : Db)
      → StartsNow t d
      → find (link_of t.employee_id t.to_store_id) d.links ≡ none
      → find (link_by_id company (r.uuid d.drawn)) d.links ≡ none
      → (cancel r company id (approve r company id d).1).1.links ≡ d.links
  cancel-approve_links t d s free fresh = rw (approve-activate t d s) (
      cancel_active (started t (r.uuid d.drawn)) (r.uuid d.drawn) (activate r company id t d).1
        (activate_free t d s.found free).0 refl refl
      ∙ (activate_free t d s.found free).1
      ∙ delete-none (link_by_id company (r.uuid d.drawn)) d.links fresh)

  activate_taken :
      (t : Transfer) (l : EmployeeStore) (d : Db)
      → find (by_id company id) d.transfers ≡ some t
      → find (link_of t.employee_id t.to_store_id) d.links ≡ some l
      → (l.company_id == company) ≡ true
      → let d1 = (activate r company id t d).1 in
        find (by_id company id) d1.transfers ≡ some (started t l.id)
  unfolding activate
  activate_taken t l d found taken own =
      let written : (activate r company id t d).1.transfers
          ≡ update (by_id company id) (λ u. started u l.id) d.transfers =
        ground (arith, taken, own) in
      rw written (found_after t l.id d.transfers found)

  find-delete_self :
      (p : EmployeeStore → Bool) (links : List EmployeeStore) → find p (delete p links) ≡ none
  find-delete_self p [] = refl
  find-delete_self p (l ∷ links) = ground (arith, find-delete_self p links)

  -- If the employee already had a link to the destination, of whatever relation, the same two calls
  -- remove that link.
  pub cancel-approve_loses_link :
      (t : Transfer) (l : EmployeeStore) (d : Db)
      → StartsNow t d
      → find (link_of t.employee_id t.to_store_id) d.links ≡ some l
      → (l.company_id == company) ≡ true
      → find (link_by_id company l.id) (cancel r company id (approve r company id d).1).1.links
        ≡ none
  cancel-approve_loses_link t l d s taken own = rw (approve-activate t d s) (
      rw
        (cancel_active (started t l.id) l.id (activate r company id t d).1
          (activate_taken t l d s.found taken own) refl refl)
        (find-delete_self (link_by_id company l.id) (activate r company id t d).1.links))
