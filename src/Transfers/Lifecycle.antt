-- ===== src/Transfers/Lifecycle.antt =====
-- The lifecycle of a transfer under the handlers that act on one transfer.
use mathlib.Core.Option
use mathlib.Core.Path.{ap₂, subst}
use vellora_backend.Prelude.{
  ℕ, ◌≡◌, refl, true, false, not, Option, none, some, List, arith, ◌==◌, Bool-cases, Option-cases,
  inl, inr, ◌⊎◌,
}
use vellora_backend.Nest.{Result}
use vellora_backend.Database.{unless_undefined, find, update}
use vellora_backend.Database.Laws.{find-update, find-holds}
use vellora_backend.Access.Principal.{Request, current_user_id, scoped_store_ids, is_out_of_scope}
use vellora_backend.Transfers.Model.{
  Transfer, Status, requested, approved, active, completed, rejected, cancelled, Db, permanent,
  is_status, by_id, update_transfer, link_of, is_kind,
}
use vellora_backend.Transfers.Service.{
  approve, approve_permanent, approve_later, activate, reject, cancel, is_closed, starts_now,
  day_of,
}

-- The diagram of the statuses.
infix 40 ◌⟶◌
pub data ◌⟶◌ : Status → Status → Type 0 where
  move_now : requested ⟶ completed
  start_now : requested ⟶ active
  accept : requested ⟶ approved
  refuse : requested ⟶ rejected
  call_off : {s : Status} → is_closed s ≡ false → s ⟶ cancelled

pub data Op : Type 0 where
  approves rejects cancels : ℕ → Op

pub run : Request → ℕ → Op → Db → Result (Option Transfer) × Db
run r company (approves id) = approve r company id
run r company (rejects id) = reject r company id
run r company (cancels id) = cancel r company id

abbrev pub target : Op → ℕ
target (approves id) = id
target (rejects id) = id
target (cancels id) = id

abbrev pub status_of : ℕ → ℕ → Db → Option Status
status_of company id d =
    Option.map (λ (t : Transfer). t.status) (find (by_id company id) d.transfers)

-- Between two statuses of one transfer there is no change or an edge.
abbrev pub Follows : Option Status → Option Status → Type 0
Follows none s' = s' ≡ none
Follows (some s) none = ⊥
Follows (some s) (some s') = (s ≡ s') ⊎ (s ⟶ s')

module _ (r : Request) (company : ℕ) where
  -- What a handler does to the table: nothing, or one write of a new status at the row that it read.
  data Effect (id : ℕ) (t t' : List Transfer) : Type 0 where
    same : t' ≡ t → Effect id t t'
    wrote :
        (u : Transfer) (s : Status) (f : Transfer → Transfer)
        → find (by_id company id) t ≡ some u
        → u.status ⟶ s
        → ((w : Transfer) → (f w).status ≡ s)
        → ((c i : ℕ) (w : Transfer) → by_id c i (f w) ≡ by_id c i w)
        → t' ≡ update (by_id company id) f t
        → Effect id t t'

  abbrev status_in : ℕ → ℕ → List Transfer → Option Status
  status_in c i t = Option.map (λ (u : Transfer). u.status) (find (by_id c i) t)

  Follows-refl : (s : Option Status) → Follows s s
  Follows-refl none = refl
  Follows-refl (some s) = inl refl

  -- A row is found under its own key alone.
  same_row :
      (c i id : ℕ) (t : List Transfer) (u w : Transfer)
      → find (by_id company id) t ≡ some u
      → find (by_id c i) t ≡ some w
      → by_id company id w ≡ true
      → u ≡ w
  same_row c i id t u w eu ew hit =
      let key : by_id c i w ≡ true = find-holds (by_id c i) t w ew in
      let here : find (by_id company id) t ≡ some w = rw (key_eq c i id w key hit) ew in cc
    where
      key_eq :
          (c i id : ℕ) (w : Transfer)
          → by_id c i w ≡ true
          → by_id company id w ≡ true
          → by_id company id ≡ by_id c i
      key_eq c i id w h k = ap₂ by_id (ground arith) (ground arith)

  write-Follows :
      (id c i : ℕ) (t : List Transfer) (u : Transfer) (s : Status) (f : Transfer → Transfer)
      → find (by_id company id) t ≡ some u
      → u.status ⟶ s
      → ((w : Transfer) → (f w).status ≡ s)
      → ((c i : ℕ) (w : Transfer) → by_id c i (f w) ≡ by_id c i w)
      → Follows (status_in c i t) (status_in c i (update (by_id company id) f t))
  write-Follows id c i t u s f read edge sets keys =
      rw (find-update (by_id company id) (by_id c i) f t (keys c i))
        (elim (Option-cases (find (by_id c i) t)) [
          | inl missing ↦ rw missing refl
          | inr (w, found) ↦ elim (Bool-cases (by_id company id w)) [
            | inl hit ↦ rw (found, hit, sets w, ← same_row c i id t u w read found hit) (inr edge)
            | inr other ↦ rw (found, other) (inl refl)
          ]
        ])

  Effect-Follows :
      {id : ℕ} {t t' : List Transfer} (c i : ℕ)
      → Effect id t t'
      → Follows (status_in c i t) (status_in c i t')
  Effect-Follows {id} {t} c i (same e) = rw e (Follows-refl (status_in c i t))
  Effect-Follows {id} {t} c i (wrote u s f read edge sets keys e) =
      rw e (write-Follows id c i t u s f read edge sets keys)

  -- What each of the tests of a handler leaves of the table when it fails.
  abbrev After : ℕ → Db → Result (Option Transfer) × Db → Type 0
  After id d o = Effect id d.transfers o.1.transfers

  is_requested : (s : Status) → not (is_status s requested) ≡ false → s ≡ requested
  is_requested s h = ground arith

  reject-Effect : (id : ℕ) (d : Db) → After id d (reject r company id d)
  unfolding reject update_transfer
  reject-Effect id d = elim (Option-cases (find (by_id company id) d.transfers)) [
    | inl missing ↦ same (ground (arith, missing))
    | inr (u, found) ↦ elim (Bool-cases (not (is_status u.status requested))) [
      | inl late ↦ same (ground (arith, found, late))
      | inr pending ↦
          wrote u rejected
            (λ t. record t {
              status = rejected;
              approved_by = unless_undefined (current_user_id r.user) t.approved_by;
            })
            found (rw (is_requested u.status pending) refuse) (λ w. refl) (λ c i w. refl)
            (ground (arith, found, pending))
    ]
  ]

  cancel-Effect : (id : ℕ) (d : Db) → After id d (cancel r company id d)
  unfolding cancel update_transfer
  cancel-Effect id d = elim (Option-cases (find (by_id company id) d.transfers)) [
    | inl missing ↦ same (ground (arith, missing))
    | inr (u, found) ↦ elim (Bool-cases (is_closed u.status)) [
      | inl closed ↦ same (ground (arith, found, closed))
      | inr live ↦
          wrote u cancelled (λ t. record t { status = cancelled; link_id = none }) found
            (call_off live) (λ w. refl) (λ c i w. refl) (ground (arith, found, live))
    ]
  ]

  permanent-Effect :
      (id : ℕ) (u : Transfer) (d : Db)
      → find (by_id company id) d.transfers ≡ some u
      → u.status ≡ requested
      → After id d (approve_permanent r company id u d)
  unfolding approve_permanent
  permanent-Effect id u d found pending =
      wrote u completed
        (λ t. record t {
          status = completed;
          approved_by = unless_undefined (current_user_id r.user) t.approved_by;
        })
        found (rw pending move_now) (λ w. refl) (λ c i w. refl) refl

  later-Effect :
      (id : ℕ) (u : Transfer) (d : Db)
      → find (by_id company id) d.transfers ≡ some u
      → u.status ≡ requested
      → After id d (approve_later r company id d)
  unfolding approve_later
  later-Effect id u d found pending =
      wrote u approved
        (λ t. record t {
          status = approved;
          approved_by = unless_undefined (current_user_id r.user) t.approved_by;
        })
        found (rw pending accept) (λ w. refl) (λ c i w. refl) refl

  activate-Effect :
      (id : ℕ) (u : Transfer) (d : Db)
      → find (by_id company id) d.transfers ≡ some u
      → u.status ≡ requested
      → After id d (activate r company id u d)
  unfolding activate
  activate-Effect id u d found pending =
      elim (Option-cases (find (link_of u.employee_id u.to_store_id) d.links)) [
        | inl free ↦ starts (r.uuid d.drawn) (ground (arith, free))
        | inr (l, taken) ↦ elim (Bool-cases (l.company_id == company)) [
          | inl own ↦ starts l.id (ground (arith, taken, own))
          | inr foreign ↦ same (ground (arith, taken, foreign))
        ]
      ]
    where
      starts :
          (link : ℕ)
          → (activate r company id u d).1.transfers
            ≡ update
                (by_id company id)
                (λ t. record t {
                  status = active;
                  link_id = some link;
                  approved_by = unless_undefined (current_user_id r.user) t.approved_by;
                })
                d.transfers
          → After id d (activate r company id u d)
      starts link e =
          wrote u active
            (λ t. record t {
              status = active;
              link_id = some link;
              approved_by = unless_undefined (current_user_id r.user) t.approved_by;
            })
            found (rw pending start_now) (λ w. refl) (λ c i w. refl) e

  approve-Effect : (id : ℕ) (d : Db) → After id d (approve r company id d)
  unfolding approve
  approve-Effect id d = elim (Option-cases (find (by_id company id) d.transfers)) [
    | inl missing ↦ same (ground (arith, missing))
    | inr (u, found) ↦ elim (Bool-cases (not (is_status u.status requested))) [
      | inl late ↦ same (ground (arith, found, late))
      | inr pending ↦
          elim (Bool-cases (is_out_of_scope (scoped_store_ids r.user) (some u.to_store_id))) [
            | inl outside ↦ same (ground (arith, found, pending, outside))
            | inr inside ↦ elim (Bool-cases (is_kind u.kind permanent)) [
              | inl moves ↦
                  subst (After id d) {x = approve_permanent r company id u d}
                    {y = approve r company id d} (ground (arith, found, pending, inside, moves))
                    (permanent-Effect id u d found (is_requested u.status pending))
              | inr stays ↦ elim (Bool-cases (starts_now u (day_of r.now))) [
                | inl now ↦
                    subst (After id d) {x = activate r company id u d} {y = approve r company id d}
                      (ground (arith, found, pending, inside, stays, now))
                      (activate-Effect id u d found (is_requested u.status pending))
                | inr later ↦
                    subst (After id d) {x = approve_later r company id d}
                      {y = approve r company id d}
                      (ground (arith, found, pending, inside, stays, later))
                      (later-Effect id u d found (is_requested u.status pending))
              ]
            ]
          ]
    ]
  ]

  -- Approving, rejecting and cancelling move the status of every transfer of every company along the
  -- diagram, or leave it as it was.
  pub run-Follows :
      (op : Op) (d : Db) (c i : ℕ)
      → Follows (status_of c i d) (status_of c i (run r company op d).1)
  unfolding run
  run-Follows (approves id) d c i = Effect-Follows c i (approve-Effect id d)
  run-Follows (rejects id) d c i = Effect-Follows c i (reject-Effect id d)
  run-Follows (cancels id) d c i = Effect-Follows c i (cancel-Effect id d)
