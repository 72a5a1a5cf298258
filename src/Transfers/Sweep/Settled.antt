-- ===== src/Transfers/Sweep/Settled.antt =====
-- The sweep against a row-by-row description of it.
use vellora_backend.Prelude.{
  ℕ, ◌+◌, ◌≡◌, refl, sym, Bool, true, none, List, [], ◌∷◌, map, arith, ◌==◌, if◌then◌else◌, All, ap,
  ◌∙◌, length,
}
use mathlib.Core.Path.{subst, ap₂}
use native.Mathlib.Nat.{zero-add}
use vellora_backend.Nest.{ok, ◌>>=◌, >>=-ok, pure}
use vellora_backend.Database.{find, select}
use vellora_backend.Access.Principal.{Request}
use vellora_backend.Transfers.Model.{
  Transfer, Db, Status, active, completed, by_id, is_due_to_activate, is_due_to_revert,
  due_to_revert,
}
use vellora_backend.Transfers.Service.{run_scheduled_sweep, activate_due, revert_due, day_of}
use vellora_backend.Transfers.Sweep.Rows.{
  view, with_status, mark, ids, IsKeyed, mark-select, selected_marks,
}
use vellora_backend.Transfers.Sweep.Loops.{can_link, activate_due_lem, revert_due_lem}

module _ (g : Transfer → Transfer)
    (same : (t : Transfer) → view (g t) ≡ with_status (g t).status t) where
  find-map-none :
      (company i : ℕ) (t : List Transfer)
      → find (by_id company i) t ≡ none
      → find (by_id company i) (map g t) ≡ none
  find-map-none company i [] e = refl
  find-map-none company i (r ∷ t) e = ground (
    arith,
    ap (λ (x : Transfer). x.id) (same r),
    ap (λ (x : Transfer). x.company_id) (same r),
    find-map-none company i t,
  )

  find-map-none_inv :
      (company i : ℕ) (t : List Transfer)
      → find (by_id company i) (map g t) ≡ none
      → find (by_id company i) t ≡ none
  find-map-none_inv company i [] e = refl
  find-map-none_inv company i (r ∷ t) e = ground (
    arith,
    ap (λ (x : Transfer). x.id) (same r),
    ap (λ (x : Transfer). x.company_id) (same r),
    find-map-none_inv company i t,
  )

  pub IsKeyed-map : (t : List Transfer) → IsKeyed t → IsKeyed (map g t)
  IsKeyed-map [] k = tt
  IsKeyed-map (r ∷ t) k = (
    rw (ap (λ (x : Transfer). x.id) (same r), ap (λ (x : Transfer). x.company_id) (same r))
        (find-map-none r.company_id r.id t k.0),
    IsKeyed-map t k.1,
  )

  pub IsKeyed-map_inv : (t : List Transfer) → IsKeyed (map g t) → IsKeyed t
  IsKeyed-map_inv [] k = tt
  IsKeyed-map_inv (r ∷ t) k = (
    find-map-none_inv r.company_id r.id t (
        rw (ap (λ (x : Transfer). x.id) (same r), ap (λ (x : Transfer). x.company_id) (same r)) at
          k.0),
    IsKeyed-map_inv t k.1,
  )

module _ (company today : ℕ) where
  -- What the sweep should do to one row: start it if its window has begun, then end it if its window
  -- is over. The link of a row is left out.
  abbrev pub activated : Transfer → Transfer
  activated t = if is_due_to_activate company today t then with_status active t else view t

  abbrev pub reverted : Transfer → Transfer
  reverted t = if is_due_to_revert company today t then with_status completed t else view t

  own_activate :
      (t : Transfer) → is_due_to_activate company today t ≡ true → (t.company_id == company) ≡ true
  own_activate t h = ground arith

  own_revert :
      (t : Transfer) → is_due_to_revert company today t ≡ true → (t.company_id == company) ≡ true
  own_revert t h = ground arith

  pub activated-view : (t : Transfer) → view (activated t) ≡ with_status (activated t).status t
  activated-view t = ground arith

  reverted-view : (t : List Transfer) → map reverted t ≡ map reverted (map view t)
  reverted-view [] = refl
  reverted-view (r ∷ t) = ap (◌∷◌ (reverted r)) (reverted-view t)

  count-view :
      (t : List Transfer)
      → length (select (is_due_to_revert company today) t)
        ≡ length (select (is_due_to_revert company today) (map view t))
  count-view [] = refl
  count-view (r ∷ t) = ground (arith, count-view t)

  map-map :
      (t : List Transfer) → map reverted (map activated t) ≡ map (λ x. reverted (activated x)) t
  map-map [] = refl
  map-map (r ∷ t) = ap (◌∷◌ (reverted (activated r))) (map-map t)

  mark_ids :
      (p : Transfer → Bool) (s : Status) (t : List Transfer)
      → ((r : Transfer) → p r ≡ true → (r.company_id == company) ≡ true)
      → IsKeyed t
      → map (mark company (ids (select p t)) s) t
        ≡ map (λ r. if p r then with_status s r else view r) t
  mark_ids p s t own keyed =
      mark-select company p (ids (select p t)) s t (selected_marks company p own t keyed)

module _ (r : Request) (company : ℕ) (d : Db) where
  abbrev today : ℕ
  today = day_of r.now

  -- No link of another tenant stands in the way of a transfer that is due.
  abbrev pub CanLinkDue : Type 0
  CanLinkDue =
      All (λ t. can_link company d.links t ≡ true)
        (select (is_due_to_activate company today) d.transfers)

  -- The sweep ends normally, counts the rows that it starts and those that it ends, and leaves the
  -- table as the description of one row says, when the rows have distinct keys.
  pub sweep_settles :
      IsKeyed d.transfers
      → CanLinkDue
      → (d' : Db) × (run_scheduled_sweep r company d ≡ (
        ok (
          length (select (is_due_to_activate company today) d.transfers),
          length
              (select (is_due_to_revert company today) (map (activated company today) d.transfers)),
        ),
        d',
      ))
        × (map view d'.transfers
            ≡ map (λ t. reverted company today (activated company today t)) d.transfers)
  unfolding run_scheduled_sweep
  sweep_settles keyed links =
      let starts = is_due_to_activate company today in
      let ends = is_due_to_revert company today in
      let a = activate_due_lem company r (select starts d.transfers) 0 d links in
      let d1 : Db = a.0 in
      let m1 : map view d1.transfers ≡ map (activated company today) d.transfers =
        a.2 ∙ mark_ids company today starts active d.transfers (own_activate company today) keyed in
      let keyed1 : IsKeyed d1.transfers =
        IsKeyed-map_inv view (λ t. refl) d1.transfers
          (subst IsKeyed (sym m1) (
            IsKeyed-map (activated company today) (activated-view company today) d.transfers
              keyed)) in
      let b = revert_due_lem company r (select ends d1.transfers) 0 d1 in
      let first : ℕ = length (select starts d.transfers) in
      let second : ℕ = length (select ends (map (activated company today) d.transfers)) in
      let counted : length (select ends d1.transfers) ≡ second =
        count-view company today d1.transfers ∙ ap (λ t. length (select ends t)) m1 in
      (
        b.0,
        >>=-ok (activate_due r company (select starts d.transfers) 0)
              (λ n. due_to_revert r company today >>= λ back.
                revert_due r company back 0 >>= λ m. pure (n, m))
              d (0 + first) d1 a.1
            ∙ >>=-ok (revert_due r company (select ends d1.transfers) 0) (λ m. pure (0 + first, m))
                d1 (0 + length (select ends d1.transfers)) b.0 b.1
            ∙ ap₂ (λ n m. (ok (n, m), b.0)) (zero-add first) (zero-add _ ∙ counted),
        b.2
            ∙ mark_ids company today ends completed d1.transfers (own_revert company today) keyed1
            ∙ reverted-view company today d1.transfers
            ∙ ap (map (reverted company today)) m1
            ∙ map-map company today d.transfers,
      )
