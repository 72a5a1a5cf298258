-- ===== src/Transfers/Sweep/Loops.antt =====
-- The two loops of `runScheduledSweep`.
use native.Mathlib.Nat.{add-zero}
use vellora_backend.Prelude.{
  ℕ, suc, ◌+◌, ◌≡◌, refl, Bool, true, Option, none, some, List, [], ◌∷◌, map, arith, ◌==◌, All,
  Option-cases, inl, inr, ap, sym, ◌∙◌, length, ==_refl,
}
use vellora_backend.Nest.{ok, >>=-ok, ◌>>◌}
use vellora_backend.Database.{find, update}
use vellora_backend.Database.Laws.{find-update}
use vellora_backend.Access.Principal.{Request}
use vellora_backend.Transfers.Model.{
  Transfer, EmployeeStore, Db, active, completed, by_id, link_of, add_link, guest, update_transfer,
}
use vellora_backend.Transfers.Service.{activate_due, revert_due, remove_link_of}
use vellora_backend.Transfers.Sweep.Rows.{view, mark, ids, mark-update, map-view}

module _ (company : ℕ) where
  -- No link of another tenant stands in the way of a link of the employee to the destination.
  abbrev pub can_link : List EmployeeStore → Transfer → Bool
  can_link links t = elim (find (link_of t.employee_id t.to_store_id) links) [
    | none ↦ true
    | some l ↦ l.company_id == company
  ]

  can_link-cons :
      (l : EmployeeStore) (links : List EmployeeStore) (u : Transfer)
      → (l.company_id == company) ≡ true
      → can_link links u ≡ true
      → can_link (l ∷ links) u ≡ true
  can_link-cons l links u own h = ground arith

  can_link-update :
      (e s : ℕ) (links : List EmployeeStore) (u : Transfer)
      → can_link links u ≡ true
      → can_link (update (link_of e s) (λ l. record l { relation = guest; active = true }) links) u
        ≡ true
  can_link-update e s links u h = ground (
    arith,
    find-update (link_of e s) (link_of u.employee_id u.to_store_id)
        (λ l. record l { relation = guest; active = true }) links (λ l. refl),
  )

  module _ (r : Request) where
    -- The id of the link that `addLink` returns.
    abbrev linked : Transfer → Db → ℕ
    linked t d = elim (find (link_of t.employee_id t.to_store_id) d.links) [
      | none ↦ r.uuid d.drawn
      | some l ↦ l.id
    ]

    -- Where nothing stands in the way a link is made, and other transfers can still have theirs.
    abbrev Links : Transfer → Db → Db → Type 0
    Links t d d' =
        (add_link r company t.employee_id t.to_store_id d ≡ (ok (linked t d), d'))
        × (d'.transfers ≡ d.transfers)
        × ((u : Transfer) → can_link d.links u ≡ true → can_link d'.links u ≡ true)

    pub add_link_lem :
        (t : Transfer) (d : Db) → can_link d.links t ≡ true → (d' : Db) × Links t d d'
    unfolding add_link
    add_link_lem t d h = elim (Option-cases (find (link_of t.employee_id t.to_store_id) d.links)) [
      | inl free ↦
          let l : EmployeeStore = record {
            id = r.uuid d.drawn;
            company_id = company;
            employee_id = t.employee_id;
            store_id = t.to_store_id;
            relation = guest;
            active = true;
          } in
          (
            record d { drawn = suc d.drawn; links = l ∷ d.links },
            (ground (arith, free), refl, λ u own. can_link-cons l d.links u (==_refl company) own),
          )
      | inr (l, taken) ↦ (
        record d {
          links =
              update (link_of t.employee_id t.to_store_id)
                (λ l. record l { relation = guest; active = true }) d.links;
        },
        (
          ground (arith, taken),
          refl,
          λ u own. can_link-update t.employee_id t.to_store_id d.links u own,
        ),
      )
    ]

    can_link-All :
        (due : List Transfer) (links links' : List EmployeeStore)
        → ((u : Transfer) → can_link links u ≡ true → can_link links' u ≡ true)
        → All (λ t. can_link links t ≡ true) due
        → All (λ t. can_link links' t ≡ true) due
    can_link-All [] links links' keep h = tt
    can_link-All (u ∷ due) links links' keep h =
        (keep u h.0, can_link-All due links links' keep h.1)

    -- The first loop counts its rows and activates each of them.
    pub activate_due_lem :
        (due : List Transfer) (n : ℕ) (d : Db)
        → All (λ t. can_link d.links t ≡ true) due
        → (d' : Db) × (activate_due r company due n d ≡ (ok (n + length due), d'))
          × (map view d'.transfers ≡ map (mark company (ids due) active) d.transfers)
    unfolding activate_due update_transfer
    activate_due_lem [] n d h = (d, rw add-zero, sym (map-view company d.transfers active))
    activate_due_lem (t ∷ due) n d h =
        let made = add_link_lem t d h.0 in
        let d1 : Db = made.0 in
        let write : Transfer → Transfer =
          λ (u : Transfer). record u { status = active; link_id = some (linked t d) } in
        let d2 : Db = record d1 { transfers = update (by_id company t.id) write d1.transfers } in
        let rest =
          activate_due_lem due (n + 1) d2 (can_link-All due d.links d1.links made.1.2 h.1) in
        (
          rest.0,
          >>=-ok (add_link r company t.employee_id t.to_store_id)
                (λ link.
                  update_transfer r company t.id
                    (λ u. record u { status = active; link_id = some link })
                  >> activate_due r company due (n + 1))
                d (linked t d) d1 made.1.0
              ∙ rest.1
              ∙ ap (λ (k : ℕ). (ok k, rest.0)) (omega arith),
          rest.2
              ∙ mark-update company t.id (ids due) active write d1.transfers (λ u. refl)
              ∙ ap (map (mark company (t.id ∷ ids due) active)) made.1.1,
        )

    remove_link_of_lem :
        (link : Option ℕ) (d : Db)
        → remove_link_of r company link d ≡ (ok tt, (remove_link_of r company link d).1)
    unfolding remove_link_of
    remove_link_of_lem none d = refl
    remove_link_of_lem (some link) d = refl

    remove_link_of-transfers :
        (link : Option ℕ) (d : Db) → (remove_link_of r company link d).1.transfers ≡ d.transfers
    unfolding remove_link_of
    remove_link_of-transfers none d = refl
    remove_link_of-transfers (some link) d = refl

    -- The second loop counts its rows and completes each of them; it cannot fail.
    pub revert_due_lem :
        (due : List Transfer) (n : ℕ) (d : Db)
        → (d' : Db) × (revert_due r company due n d ≡ (ok (n + length due), d'))
          × (map view d'.transfers ≡ map (mark company (ids due) completed) d.transfers)
    unfolding revert_due update_transfer
    revert_due_lem [] n d = (d, rw add-zero, sym (map-view company d.transfers completed))
    revert_due_lem (t ∷ due) n d =
        let gone : Db = (remove_link_of r company t.link_id d).1 in
        let write : Transfer → Transfer =
          λ (u : Transfer). record u { status = completed; link_id = none } in
        let d2 : Db = record gone {
          transfers = update (by_id company t.id) write gone.transfers;
        } in
        let rest = revert_due_lem due (n + 1) d2 in
        (
          rest.0,
          >>=-ok (remove_link_of r company t.link_id)
                (λ x.
                  update_transfer r company t.id
                    (λ u. record u { status = completed; link_id = none })
                  >> revert_due r company due (n + 1))
                d tt gone (remove_link_of_lem t.link_id d)
              ∙ rest.1
              ∙ ap (λ (k : ℕ). (ok k, rest.0)) (omega arith),
          rest.2
              ∙ mark-update company t.id (ids due) completed write gone.transfers (λ u. refl)
              ∙ ap (map (mark company (t.id ∷ ids due) completed))
                  (remove_link_of-transfers t.link_id d),
        )
