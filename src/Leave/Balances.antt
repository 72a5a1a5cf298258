-- ===== src/Leave/Balances.antt =====
-- What `adjustBalance` and `upsertBalance` do to the ledger of balances.
use vellora_backend.Prelude.{
  ℕ, suc, ◌≤◌, ◌≡◌, refl, Bool, true, false, ◌&&◌, Option, none, some, List, ◌∷◌, arith, ◌==◌,
  if◌then◌else◌, Bool-cases, Option-cases, inl, inr, ◌∙◌, ap,
}
use vellora_backend.Nest.{ok}
use vellora_backend.Database.{find, update}
use vellora_backend.Database.Laws.{find-update, find-holds}
use vellora_backend.Database.Totals.{IsUnique, IsUnique-update, IsUnique-find}
use vellora_backend.Access.Principal.{Request}
use vellora_backend.Leave.Model.{LeaveBalance, Db, balance_by_id, balance_key, own_balance}
use vellora_backend.Leave.Service.{adjust_balance}
use vellora_backend.Leave.Rules.{Change, add_floor}

-- The days taken and the days pending under a key; a missing row stands for none of either.
abbrev pub amounts : Option LeaveBalance → ℕ × ℕ
amounts none = (0, 0)
amounts (some b) = (b.taken, b.pending)

abbrev pub same_key : ℕ → ℕ → ℕ → ℕ → ℕ → ℕ → Bool
same_key e t y e' t' y' = e == e' && t == t' && y == y'

abbrev pub moved : Change → Change → ℕ × ℕ → ℕ × ℕ
moved dt dp (used, reserved) = (add_floor used dt, add_floor reserved dp)

module _ (company : ℕ) where
  abbrev pub balance_at : ℕ → ℕ → ℕ → List LeaveBalance → ℕ × ℕ
  balance_at e t y bs = amounts (find (own_balance company e t y) bs)

  -- The row under the key is the tenant's own, if there is one.
  abbrev pub NoForeign : ℕ → ℕ → ℕ → List LeaveBalance → Type 0
  NoForeign e t y bs = find (balance_key e t y) bs ≡ find (own_balance company e t y) bs

  abbrev pub IsKeyed : List LeaveBalance → Type 0
  IsKeyed bs = (i : ℕ) → IsUnique (balance_by_id company i) bs

  own_new :
      (b : LeaveBalance) (e' t' y' : ℕ) (bs : List LeaveBalance)
      → b.company_id ≡ company
      → balance_at e' t' y' (b ∷ bs) ≡ (
          if same_key b.employee_id b.type_id b.year e' t' y'
          then (b.taken, b.pending)
          else balance_at e' t' y' bs)
  own_new b e' t' y' bs own = ground arith

  own_key :
      (b : LeaveBalance) (e t y e' t' y' : ℕ)
      → own_balance company e t y b ≡ true
      → own_balance company e' t' y' b ≡ same_key e t y e' t' y'
  own_key b e t y e' t' y' h = ground arith

  own_id :
      (b : LeaveBalance) (e t y : ℕ)
      → own_balance company e t y b ≡ true
      → balance_by_id company b.id b ≡ true
  own_id b e t y h = ground arith

  own_eq :
      (e t y e' t' y' : ℕ)
      → same_key e t y e' t' y' ≡ true
      → own_balance company e t y ≡ own_balance company e' t' y'
  own_eq e t y e' t' y' h =
      let pe : e ≡ e' = ground arith in
      let pt : t ≡ t' = ground arith in let py : y ≡ y' = ground arith in rw (pe, pt, py)

  pub balance_at-same :
      (e t y e' t' y' : ℕ) (bs : List LeaveBalance)
      → same_key e t y e' t' y' ≡ true
      → balance_at e t y bs ≡ balance_at e' t' y' bs
  balance_at-same e t y e' t' y' bs h = ap (λ k. amounts (find k bs)) (own_eq e t y e' t' y' h)

  abbrev set_amounts : ℕ → ℕ → LeaveBalance → LeaveBalance
  set_amounts used reserved b = record b { taken = used; pending = reserved }

  -- A write at the id of the row under one key changes what is under that key alone.
  write_at :
      (e t y e' t' y' used reserved : ℕ) (b : LeaveBalance) (bs : List LeaveBalance)
      → IsKeyed bs
      → find (own_balance company e t y) bs ≡ some b
      → balance_at e' t' y' (update (balance_by_id company b.id) (set_amounts used reserved) bs)
        ≡ (if same_key e t y e' t' y' then (used, reserved) else balance_at e' t' y' bs)
  write_at e t y e' t' y' used reserved b bs keyed found =
      rw
        (find-update (balance_by_id company b.id) (own_balance company e' t' y')
          (set_amounts used reserved) bs (λ w. refl))
        (elim (Bool-cases (same_key e t y e' t' y')) [
          | inl same ↦
              rw
                (
                  same,
                  ← own_eq e t y e' t' y' same,
                  found,
                  own_id b e t y (found_holds (own_balance company e t y) b found),
                )
                refl
          | inr apart ↦ rw apart (elim (Option-cases (find (own_balance company e' t' y') bs)) [
            | inl missing ↦ rw missing refl
            | inr (w, there) ↦ elim (Bool-cases (balance_by_id company b.id w)) [
              | inl hit ↦ absurd (clash w there hit apart)
              | inr other ↦ rw (there, other) refl
            ]
          ])
        ])
    where
      found_holds : (k : LeaveBalance → Bool) (w : LeaveBalance) → find k bs ≡ some w → k w ≡ true
      found_holds k w h = find-holds k bs w h

      clash :
          (w : LeaveBalance)
          → find (own_balance company e' t' y') bs ≡ some w
          → balance_by_id company b.id w ≡ true
          → same_key e t y e' t' y' ≡ false
          → ⊥
      clash w there hit apart =
          let one =
            IsUnique-find (balance_by_id company b.id) (own_balance company e t y) bs b (keyed b.id)
              found (own_id b e t y (found_holds (own_balance company e t y) b found)) in
          let two =
            IsUnique-find (balance_by_id company b.id) (own_balance company e' t' y') bs w
              (keyed b.id) there hit in
          let eq : b ≡ w = cc (one, two) in
          let holds : own_balance company e' t' y' b ≡ true =
            rw eq (found_holds (own_balance company e' t' y') w there) in
          let fails : own_balance company e' t' y' b ≡ false =
            own_key b e t y e' t' y' (found_holds (own_balance company e t y) b found) ∙ apart in
          cc (holds, fails)

  IsKeyed-cons :
      (b : LeaveBalance) (bs : List LeaveBalance)
      → find (balance_by_id company b.id) bs ≡ none
      → IsKeyed bs
      → IsKeyed (b ∷ bs)
  IsKeyed-cons b bs fresh keyed i = (λ h. rw (← id_eq b i h) fresh, keyed i)
    where
      id_eq : (b : LeaveBalance) (i : ℕ) → balance_by_id company i b ≡ true → b.id ≡ i
      id_eq b i h = ground arith

  module _ (r : Request) where
    abbrev pub Adjusts : ℕ → ℕ → ℕ → Change → Change → Db → Db → Type 0
    Adjusts e t y dt dp d d' =
        (adjust_balance r company e t y dt dp d ≡ (ok tt, d'))
        × (d'.requests ≡ d.requests)
        × ((e' t' y' : ℕ)
            → balance_at e' t' y' d'.balances ≡ (
                if same_key e t y e' t' y'
                then moved dt dp (balance_at e t y d.balances)
                else balance_at e' t' y' d.balances))
        × IsKeyed d'.balances
        × (d.drawn ≤ d'.drawn)

    pub adjust_lem :
        (e t y : ℕ) (dt dp : Change) (d : Db)
        → NoForeign e t y d.balances
        → IsKeyed d.balances
        → find (balance_by_id company (r.uuid d.drawn)) d.balances ≡ none
        → (d' : Db) × Adjusts e t y dt dp d d'
    unfolding adjust_balance
    adjust_lem e t y dt dp d own keyed fresh =
        elim (Option-cases (find (own_balance company e t y) d.balances)) [
          | inl missing ↦
              let b : LeaveBalance = record {
                id = r.uuid d.drawn;
                company_id = company;
                employee_id = e;
                type_id = t;
                year = y;
                entitled = 0;
                taken = add_floor 0 dt;
                pending = add_floor 0 dp;
              } in
              (
                record d { balances = b ∷ d.balances; drawn = suc d.drawn },
                (
                  ground (arith, missing, own),
                  refl,
                  λ e' t' y'. rw missing (own_new b e' t' y' d.balances refl),
                  IsKeyed-cons b d.balances fresh keyed,
                  omega arith,
                ),
              )
          | inr (b, found) ↦ (
            record d {
              balances =
                  update (balance_by_id company b.id)
                    (set_amounts (add_floor b.taken dt) (add_floor b.pending dp)) d.balances;
            },
            (
              ground (arith, found),
              refl,
              λ e' t' y'. rw found (
                  write_at e t y e' t' y' (add_floor b.taken dt) (add_floor b.pending dp) b
                    d.balances keyed found),
              λ i.
                  IsUnique-update (balance_by_id company i) (balance_by_id company b.id)
                    (set_amounts (add_floor b.taken dt) (add_floor b.pending dp)) d.balances
                    (λ w. refl) (keyed i),
              omega arith,
            ),
          )
        ]
