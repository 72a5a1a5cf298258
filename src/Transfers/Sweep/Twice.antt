-- ===== src/Transfers/Sweep/Twice.antt =====
-- A sweep leaves nothing for a second one on the same day.
use vellora_backend.Prelude.{
  ℕ, ◌≡◌, refl, Bool, false, inl, inr, Bool-cases, List, [], ◌∷◌, map, arith, ap, ◌∙◌, sym, ◌/◌,
}
use vellora_backend.Nest.{ok}
use vellora_backend.Database.{select}
use vellora_backend.Access.Principal.{Request}
use vellora_backend.Transfers.Model.{
  Transfer, Db, active, completed, is_due_to_activate, is_due_to_revert,
}
use vellora_backend.Transfers.Service.{run_scheduled_sweep, activate_due, revert_due, day_of}
use vellora_backend.Transfers.Sweep.Rows.{view, with_status, IsKeyed}
use vellora_backend.Transfers.Sweep.Settled.{activated, reverted, CanLinkDue, sweep_settles}

select_none :
    (p : Transfer → Bool) (g : Transfer → Transfer)
    → ((t : Transfer) → p (g t) ≡ false)
    → (t : List Transfer) → select p (map g t) ≡ []
select_none p g h [] = refl
select_none p g h (r ∷ t) = rw (h r) (select_none p g h t)

module _ (company today : ℕ) where
  not_ended : (t : Transfer) → is_due_to_revert company today (reverted company today t) ≡ false
  not_ended t = elim (Bool-cases (is_due_to_revert company today t)) [
    | inl due ↦ rw due (completed_not_ended t)
    | inr idle ↦ rw idle idle
  ]
    where
      completed_not_ended :
          (t : Transfer) → is_due_to_revert company today (with_status completed t) ≡ false
      completed_not_ended t = ground arith

  not_started_active :
      (t : Transfer)
      → is_due_to_activate company today (reverted company today (with_status active t)) ≡ false
  not_started_active t = elim (Bool-cases (is_due_to_revert company today (with_status active t))) [
    | inl due ↦ rw due (ground arith)
    | inr idle ↦ rw idle (ground arith)
  ]

  not_started_view :
      (t : Transfer)
      → is_due_to_activate company today t ≡ false
      → is_due_to_activate company today (reverted company today (view t)) ≡ false
  not_started_view t h = elim (Bool-cases (is_due_to_revert company today t)) [
    | inl due ↦ rw due (ground arith)
    | inr idle ↦ rw idle h
  ]

  abbrev settled : Transfer → Transfer
  settled t = reverted company today (activated company today t)

  settled_not_started : (t : Transfer) → is_due_to_activate company today (settled t) ≡ false
  settled_not_started t = elim (Bool-cases (is_due_to_activate company today t)) [
    | inl due ↦ rw due (not_started_active t)
    | inr idle ↦ rw idle (not_started_view t idle)
  ]

  settled_not_ended : (t : Transfer) → is_due_to_revert company today (settled t) ≡ false
  settled_not_ended t = not_ended (activated company today t)

  none_starts-view :
      (t : List Transfer)
      → select (is_due_to_activate company today) (map view t) ≡ []
      → select (is_due_to_activate company today) t ≡ []
  none_starts-view [] e = refl
  none_starts-view (r ∷ t) e = ground (arith, none_starts-view t)

  none_ends-view :
      (t : List Transfer)
      → select (is_due_to_revert company today) (map view t) ≡ []
      → select (is_due_to_revert company today) t ≡ []
  none_ends-view [] e = refl
  none_ends-view (r ∷ t) e = ground (arith, none_ends-view t)

module _ (r : Request) (company : ℕ) where
  idle :
      (d : Db)
      → select (is_due_to_activate company (day_of r.now)) d.transfers ≡ []
      → select (is_due_to_revert company (day_of r.now)) d.transfers ≡ []
      → run_scheduled_sweep r company d ≡ (ok (0, 0), d)
  unfolding run_scheduled_sweep activate_due revert_due
  idle d starts ends = simp (starts, ends)

module _ (r : Request) (company : ℕ) where
  -- A second sweep on the same UTC day, at whatever moment of it and by whatever caller, finds nothing
  -- to do and changes nothing, when the rows have distinct keys and no link of another tenant stood in
  -- the way of the first.
  pub sweep-sweep :
      (r' : Request) (d : Db)
      → r'.now / 86400000 ≡ r.now / 86400000
      → IsKeyed d.transfers
      → CanLinkDue r company d
      → let d' = (run_scheduled_sweep r company d).1 in
        run_scheduled_sweep r' company d' ≡ (ok (0, 0), d')
  sweep-sweep r' d same keyed links =
      let s = sweep_settles r company d keyed links in
      let d' : Db = (run_scheduled_sweep r company d).1 in
      let today : ℕ = day_of r'.now in
      let rows : map view d'.transfers ≡ map (settled company today) d.transfers =
        ap (λ x. map view x.1.transfers) s.1
        ∙ s.2
        ∙ ap (λ t. map (settled company t) d.transfers) (sym same) in
      idle r' company d'
        (none_starts-view company today d'.transfers (
          ap (select (is_due_to_activate company today)) rows
          ∙ select_none _ (settled company today) (settled_not_started company today) d.transfers))
        (none_ends-view company today d'.transfers (
          ap (select (is_due_to_revert company today)) rows
          ∙ select_none _ (settled company today) (settled_not_ended company today) d.transfers))
