-- ===== src/Employees/Applying.antt =====
-- Who may apply, and for what, in employees/activation-requests.service.ts.
use mathlib.Core.Option
use vellora_backend.Prelude.{
  ℕ, ◌+◌, ◌<◌, ◌≡◌, refl, sym, ◌∙◌, ap, Bool, true, false, not, ◌&&◌, Option, none, some, String,
  List, [], ◌∷◌, map, leb, if◌then◌else◌, arith, Bool-cases, Option-cases, inl, inr,
}
use mathlib.Core.Path.{subst}
use vellora_backend.Nest.{ok, err, forbidden}
use vellora_backend.Database.{find, select, update}
use vellora_backend.Database.Laws.{find-holds}
use vellora_backend.Access.Principal.{Request, MembershipRole, current_user_id}
use vellora_backend.Attendance.Model.{latest}
use vellora_backend.Employees.Activation.{
  origin_of, new_request, find_by_id, find_latest_for_email, create, update_request,
  notify_approvers, raise, reject,
}
use vellora_backend.Employees.Model.{
  ActivationRequest, pending, rejected, created, Db, RaiseInput, role_rank, is_assignable, role_of,
  cooldown_ms, is_pending, is_waiting, is_cooling, is_created, by_id, of_email,
}

-- The latest of the rows under a write that leaves the times.
latest-map :
    {A : Type 0} (at : A → ℕ) (g : A → A) (t : List A)
    → ((x : A) → at (g x) ≡ at x)
    → latest at (map g t) ≡ Option.map g (latest at t)
latest-map at g [] same = refl
latest-map at g (x ∷ t) same = elim (Option-cases (latest at t)) [
  | inl nothing ↦
      let rest : latest at (map g t) ≡ none = latest-map at g t same ∙ ap (Option.map g) nothing in
      ground (arith, rest, nothing)
  | inr (y, last) ↦
      let rest : latest at (map g t) ≡ some (g y) =
        latest-map at g t same ∙ ap (Option.map g) last in
      elim (Bool-cases (leb (at y) (at x))) [
        | inl older ↦ rw (rest, last, same x, same y, older) refl
        | inr newer ↦ rw (rest, last, same x, same y, newer) refl
      ]
]

select-update-map :
    {A : Type 0} (p q : A → Bool) (f : A → A) (t : List A)
    → ((x : A) → q (f x) ≡ q x)
    → select q (update p f t) ≡ map (λ x. if p x then f x else x) (select q t)
select-update-map p q f [] same = refl
select-update-map p q f (x ∷ t) same = elim (Bool-cases (p x)) [
  | inl hit ↦ rw (hit, same x) (ground (arith, hit, select-update-map p q f t same))
  | inr miss ↦ rw miss (ground (arith, miss, select-update-map p q f t same))
]

-- The latest request of an email after a write at it that leaves the email and the time.
latest-update :
    (c id : ℕ) (email : String) (f : ActivationRequest → ActivationRequest) (q : ActivationRequest)
    (t : List ActivationRequest)
    → ((x : ActivationRequest) → of_email c email (f x) ≡ of_email c email x)
    → ((x : ActivationRequest) → (f x).created_at ≡ x.created_at)
    → find (by_id c id) t ≡ some q
    → latest (λ x. x.created_at) (select (of_email c email) t) ≡ some q
    → latest (λ x. x.created_at) (select (of_email c email) (update (by_id c id) f t)) ≡ some (f q)
latest-update c id email f q t same timed found last =
    let g : ActivationRequest → ActivationRequest = λ x. if by_id c id x then f x else x in
    let hit = find-holds (by_id c id) t q found in
    ap (latest (λ (x : ActivationRequest). x.created_at))
      (select-update-map (by_id c id) (of_email c email) f t same)
    ∙ latest-map (λ (x : ActivationRequest). x.created_at) g (select (of_email c email) t)
        (λ x. kept x (by_id c id x))
    ∙ ap (Option.map g) last
    ∙ rw hit refl
  where
    kept : (x : ActivationRequest) (b : Bool) → (if b then f x else x).created_at ≡ x.created_at
    kept x true = timed x
    kept x false = refl

module _ (invite : String → Option String → Option ℕ) (c : ℕ) where
  -- `raise` that returns makes a pending request for the given role. A request made for another person
  -- names a role strictly below that of the caller, and the latest request of the email before it was
  -- not pending.
  pub raise-IsBelow :
      (r : Request) (input : RaiseInput) (q : ActivationRequest) (d : Db)
      → (raise invite r c input d).0 ≡ ok q
      → (q.status ≡ pending)
        × (q.requested_role ≡ input.role)
        × (origin_of invite r c input ≡ created
            → (a : MembershipRole) × (role_of r.user ≡ some a)
              × (role_rank a < role_rank input.role))
        × (is_waiting (latest (λ x. x.created_at) (select (of_email c input.email) d.requests))
            ≡ false)
  unfolding raise create notify_approvers find_latest_for_email
  raise-IsBelow r input q d returned =
      elim (Bool-cases (
        is_created (origin_of invite r c input)
        && not (is_assignable (role_of r.user) input.role))) [
          | inl above ↦ absurd (ground (arith, above, returned))
          | inr below ↦
              elim (Bool-cases (
                is_waiting (
                  latest (λ (x : ActivationRequest). x.created_at)
                    (select (of_email c input.email) d.requests)))) [
                      | inl waiting ↦ absurd (ground (arith, below, waiting, returned))
                      | inr free ↦
                          elim (Bool-cases (
                            is_cooling r.now (
                              latest (λ (x : ActivationRequest). x.created_at)
                                (select (of_email c input.email) d.requests)))) [
                                  | inl cooling ↦
                                      absurd (ground (arith, below, free, cooling, returned))
                                  | inr over ↦
                                      let same : new_request invite r c input (r.uuid d.drawn) ≡ q =
                                        ground (arith, below, free, over, returned) in
                                      (
                                        ap (λ x. x.status) (sym same),
                                        ap (λ x. x.requested_role) (sym same),
                                        λ made.
                                            under (role_of r.user) refl
                                              (ground (arith, below, made)),
                                        free,
                                      )
                                ]
                    ]
        ]
    where
      under :
          (o : Option MembershipRole)
          → role_of r.user ≡ o
          → is_assignable o input.role ≡ true
          → (a : MembershipRole) × (role_of r.user ≡ some a) × (role_rank a < role_rank input.role)
      under none e on = absurd (ground (arith, on))
      under (some a) e on = (a, e, ground (arith, on))

  -- After `reject` of the latest request of an email, `raise` refuses every request for that email for 24
  -- hours, whoever makes it, and writes nothing.
  pub raise-reject :
      (r r' : Request) (id : ℕ) (reason : Option String) (q : ActivationRequest)
      (o : Option ActivationRequest) (input : RaiseInput) (d : Db)
      → find (by_id c id) d.requests ≡ some q
      → latest (λ x. x.created_at) (select (of_email c q.email) d.requests) ≡ some q
      → (reject invite r c id reason d).0 ≡ ok o
      → input.email ≡ q.email
      → r'.now < r.now + cooldown_ms
      → (why : String) × (raise invite r' c input (reject invite r c id reason d).1
          ≡ (err (forbidden why), (reject invite r c id reason d).1))
  unfolding raise reject find_by_id update_request find_latest_for_email
  raise-reject r r' id reason q o input d found last returned same soon =
      elim (Bool-cases (is_pending q.status)) [
        | inr decided ↦ absurd (ground (arith, found, decided, returned))
        | inl waiting ↦
            let f : ActivationRequest → ActivationRequest = λ x. record x {
              status = rejected;
              reject_reason = reason;
              decided_by = current_user_id r.user;
              decided_at = some r.now;
              cooldown_until = some (r.now + cooldown_ms);
            } in
            let d' : Db = record d { requests = update (by_id c id) f d.requests } in
            let left : (reject invite r c id reason d).1 ≡ d' = ground (arith, found, waiting) in
            let now_last =
              latest-update c id q.email f q d.requests (λ x. refl) (λ x. refl) found last in
            let now_last' : latest (λ (x : ActivationRequest). x.created_at)
                  (select (of_email c input.email) d'.requests)
                ≡ some (f q) =
              rw same now_last in
            let cooling : is_cooling r'.now (some (f q)) ≡ true = ground (arith, soon) in
            subst
              (λ (x : Db). (why : String) × (raise invite r' c input x ≡ (err (forbidden why), x)))
              (sym left)
              (elim (Bool-cases (
                is_created (origin_of invite r' c input)
                && not (is_assignable (role_of r'.user) input.role))) [
                  | inl above ↦
                      ("You cannot create a user at or above your own role.", ground (arith, above))
                  | inr below ↦ (
                    "This applicant was recently rejected — they may re-apply after 24 hours.",
                    ground (arith, below, now_last', cooling),
                  )
                ])
      ]
