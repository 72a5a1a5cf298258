-- ===== src/Employees/Seats.antt =====
-- The seats of the plan under `approve` of employees/activation-requests.service.ts.
use vellora_backend.Prelude.{
  ℕ, suc, ◌≤◌, ◌≡◌, refl, Bool, ◌&&◌, ◌==◌, Option, some, String, List, [], ◌∷◌, map, arith, ap,
  Bool-cases, Option-cases, inl, inr,
}
use vellora_backend.Nest.{ok, outcomes}
use vellora_backend.Database.{find, update, count_where}
use vellora_backend.Database.Laws.{update-none}
use vellora_backend.Database.Totals.{IsUnique}
use vellora_backend.Access.Principal.{Request, MembershipRole}
use vellora_backend.Access.Entitlements.{property, get_effective, at_most}
use vellora_backend.Access.Limits.{assert_active_user_limit}
use vellora_backend.Access.Limits as Limits
use vellora_backend.Employees.Model.{
  ActivationRequest, Db, Membership, active, billed, by_id, is_active, is_pending, member_key,
}
use vellora_backend.Employees.Activation.{
  find_by_id, user_for, upsert_membership, link_employee, provision_active_membership, within_seats,
  approve, update_request,
}

module _ {ℓ} {A : Type ℓ} (p q : A → Bool) (f : A → A) where
  count_where-update :
      (t : List A) → IsUnique p t → count_where q (update p f t) ≤ suc (count_where q t)
  count_where-update [] one = omega arith
  count_where-update (x ∷ t) one = elim (Bool-cases (p x)) [
    | inl hit ↦ rw (hit, update-none p f t (one.0 hit)) (ground arith)
    | inr miss ↦ rw miss (ground (arith, count_where-update t one.1))
  ]

abbrev pub seats : ℕ → List Membership → ℕ
seats c ms = count_where (λ m. m.company_id == c && is_active m.status) ms

seats_billed :
    (c : ℕ) (ms : List Membership)
    → count_where
        (λ (m : Limits.Membership). m.company_id == c && m.active)
        (map (λ m. record { company_id = m.company_id; active = is_active m.status }) ms)
      ≡ seats c ms
seats_billed c [] = refl
seats_billed c (m ∷ ms) = rw (seats_billed c ms) refl

module _ (invite : String → Option String → Option ℕ) (r : Request) (c : ℕ) where
  user_for_lem :
      (email : String) (uid : ℕ) (d : Db)
      → (user_for invite r c email uid d).1.memberships ≡ d.memberships
  unfolding user_for
  user_for_lem email uid d = ground arith

  upsert_lem :
      (user : ℕ) (role : MembershipRole) (d : Db)
      → IsUnique (member_key user c) d.memberships
      → seats c (upsert_membership invite r c user role d).1.memberships
        ≤ suc (seats c d.memberships)
  unfolding upsert_membership
  upsert_lem user role d one = elim (Option-cases (find (member_key user c) d.memberships)) [
    | inl new ↦ rw (upsert_membership, new) (ground arith)
    | inr (m, found) ↦
        rw (upsert_membership, found)
          (count_where-update (member_key user c) (λ m. m.company_id == c && is_active m.status)
            (λ x. record x { role = role; status = active }) d.memberships one)
  ]

  free_seat :
      (n : ℕ) (d : Db)
      → property "employees" (get_effective c d.entitlements).limits ≡ some (at_most n)
      → assert_active_user_limit c 1 (billed d) ≡ ok tt
      → suc (seats c d.memberships) ≤ n
  unfolding assert_active_user_limit
  free_seat n d cap passed = ground (arith, cap, seats_billed c d.memberships, passed)

  provision_lem :
      (q : ActivationRequest) (uid : ℕ) (d : Db)
      → ((u : ℕ) → IsUnique (member_key u c) d.memberships)
      → seats c (provision_active_membership invite r c q uid d).1.memberships
        ≤ suc (seats c d.memberships)
  unfolding provision_active_membership link_employee
  provision_lem q uid d keyed =
      let users = user_for invite r c q.email uid d in
      let kept = user_for_lem q.email uid d in
      elim (outcomes users users.1 refl) [
        | inr (e, threw) ↦ ground (arith, threw, kept)
        | inl (user, got) ↦
            let member = upsert_membership invite r c user q.requested_role users.1 in
            let more = upsert_lem user q.requested_role users.1 (rw kept (keyed user)) in
            elim (outcomes member member.1 refl) [
              | inr (e, threw) ↦ ground (arith, got, threw, more, kept)
              | inl (m, put) ↦ elim (Option-cases q.employee_id) [
                | inl none_named ↦ ground (arith, got, put, none_named, more, kept)
                | inr (i, named) ↦ ground (arith, got, put, named, more, kept)
              ]
            ]
      ]

  -- Once `approve` of an activation request has returned, the active memberships of the company are at
  -- most the limit `employees` of its effective access, if that is a number and no user has two
  -- memberships in the company.
  pub approve-seats :
      (id n : ℕ) (redirect_to : Option String) (o : Option ActivationRequest) (d : Db)
      → ((u : ℕ) → IsUnique (member_key u c) d.memberships)
      → property "employees" (get_effective c d.entitlements).limits ≡ some (at_most n)
      → (approve invite r c id redirect_to d).0 ≡ ok o
      → seats c (approve invite r c id redirect_to d).1.memberships ≤ n
  unfolding approve find_by_id within_seats update_request
  approve-seats id n redirect_to o d keyed cap returned =
      elim (Option-cases (find (by_id c id) d.requests)) [
        | inl unknown ↦ absurd (ground (arith, unknown, returned))
        | inr (q, found) ↦ elim (Bool-cases (is_pending q.status)) [
          | inr decided ↦ absurd (ground (arith, found, decided, returned))
          | inl waits ↦ elim (outcomes (assert_active_user_limit c 1 (billed d), d) d refl) [
            | inr (e, full) ↦ absurd (ground (arith, found, waits, full, returned))
            | inl (_, passed) ↦ elim (Option-cases (invite q.email redirect_to)) [
              | inl unsent ↦ absurd (ground (arith, found, waits, passed, unsent, returned))
              | inr (uid, sent) ↦
                  let free = free_seat n d cap (ap (λ x. x.0) passed) in
                  let m = provision_active_membership invite r c q uid d in
                  let more = provision_lem q uid d keyed in
                  elim (outcomes m m.1 refl) [
                    | inr (e, threw) ↦
                        absurd (ground (arith, found, waits, passed, sent, threw, returned))
                    | inl (i, made) ↦
                        let rows : (approve invite r c id redirect_to d).1.memberships
                            ≡ m.1.memberships =
                          ground (arith, found, waits, passed, sent, made) in
                        rw rows (omega (arith, free, more))
                  ]
            ]
          ]
        ]
      ]
