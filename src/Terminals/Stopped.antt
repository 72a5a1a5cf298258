-- ===== src/Terminals/Stopped.antt =====
-- Terminals that devices/devices.service.ts blocks, freezes or deletes.
use vellora_backend.Prelude.{
  ℕ, ◌≡◌, refl, Bool, true, false, none, some, List, [], ◌∷◌, arith, Bool-cases, Option-cases, inl,
  inr, ◌⊎◌, ◌≢◌,
}
use mathlib.Core.Path.{subst}
use vellora_backend.Nest.{Result, ok, err, Exception, not_found, forbidden}
use vellora_backend.Database.{find, update, delete}
use vellora_backend.Database.Laws.{find-update, find-holds}
use vellora_backend.Access.Principal.{Request, scoped_store_ids, is_out_of_scope, current_user_id}
use vellora_backend.Terminals.Qr.{Text, Library}
use vellora_backend.Terminals.Model.{
  Terminal, Db, TerminalStatus, inactive, is_active, by_id, update_terminal, delete_terminal_row,
}
use vellora_backend.Terminals.Service.{
  get_terminal, block_terminal, deactivate_terminal, delete_terminal, validate_qr_token,
}
use vellora_backend.Terminals.Accepted.{validate_qr_token-IsCurrent}

-- The ways to take a terminal out of service.
pub data Stop : Type 0 where
  block deactivate remove : Stop

-- The handler returned; what it returned does not matter here.
abbrev pub returns {ℓ} : {A : Type ℓ} → Result A → Bool
returns (ok a) = true
returns (err e) = false

abbrev pub forget : {A : Type 0} → Result A × Db → Bool × Db
forget (r, d) = (returns r, d)

-- Whether the handler returned, and what it left.
abbrev pub stop : Library → ℕ → Request → ℕ → Stop → ℕ → Db → Bool × Db
stop l ttl r company block id d = forget (block_terminal l ttl r company id d)
stop l ttl r company deactivate id d = forget (deactivate_terminal l ttl r company id d)
stop l ttl r company remove id d = forget (delete_terminal l ttl r company id d)

-- A row under the id that stands in the table is not active.
abbrev IsOff : ℕ → ℕ → List Terminal → Type 0
IsOff company id rows =
    (t : Terminal) → find (by_id company id) rows ≡ some t → is_active t.status ≡ false

find-delete_self : (p : Terminal → Bool) (rows : List Terminal) → find p (delete p rows) ≡ none
find-delete_self p [] = refl
find-delete_self p (t ∷ rows) = ground (arith, find-delete_self p rows)

update-IsOff :
    (company id : ℕ) (f : Terminal → Terminal) (rows : List Terminal)
    → ((t : Terminal) → by_id company id (f t) ≡ by_id company id t)
    → ((t : Terminal) → is_active (f t).status ≡ false)
    → IsOff company id (update (by_id company id) f rows)
update-IsOff company id f rows same off t found =
    let after = find-update (by_id company id) (by_id company id) f rows same in
    elim (Option-cases (find (by_id company id) rows)) [
      | inl missing ↦ absurd (ground (arith, after, missing, found))
      | inr (u, here) ↦
          let hit : by_id company id u ≡ true = find-holds (by_id company id) rows u here in
          let written : f u ≡ t = ground (arith, after, here, hit, found) in
          subst (λ (x : Terminal). is_active x.status ≡ false) written (off u)
    ]

module _ (l : Library) (ttl : ℕ) (r : Request) (company id : ℕ) (d : Db) where
  reached :
      ((t : Terminal) × (get_terminal l ttl r company id d ≡ (ok t, d)))
      ⊎ ((e : Exception) × (get_terminal l ttl r company id d ≡ (err e, d)))
  unfolding get_terminal
  reached = elim (Option-cases (find (by_id company id) d.terminals)) [
    | inl unknown ↦ inr (not_found "Terminal not found.", ground (arith, unknown))
    | inr (t, found) ↦
        elim (Bool-cases (is_out_of_scope (scoped_store_ids r.user) (some t.store_id))) [
          | inl out ↦
              inr (forbidden "That store is outside your scope.", ground (arith, found, out))
          | inr reach ↦ inl (t, ground (arith, found, reach))
        ]
  ]

  stop-IsOff :
      (s : Stop)
      → (stop l ttl r company s id d).0 ≡ true
      → IsOff company id (stop l ttl r company s id d).1.terminals
  unfolding block_terminal deactivate_terminal delete_terminal update_terminal delete_terminal_row
  stop-IsOff s returned = elim reached [
    | inr (e, stops) ↦ absurd (refused s e stops returned)
    | inl (t, goes) ↦ off s t goes
  ]
    where
      refused :
          (s : Stop) (e : Exception)
          → get_terminal l ttl r company id d ≡ (err e, d)
          → (stop l ttl r company s id d).0 ≡ true
          → ⊥
      refused block e stops returned = ground (arith, stops, returned)
      refused deactivate e stops returned = ground (arith, stops, returned)
      refused remove e stops returned = ground (arith, stops, returned)

      off :
          (s : Stop) (t : Terminal)
          → get_terminal l ttl r company id d ≡ (ok t, d)
          → IsOff company id (stop l ttl r company s id d).1.terminals
      off block t goes =
          let f : Terminal → Terminal =
            λ t. record t { status = TerminalStatus.blocked; qr_secret = none } in
          let rows : (stop l ttl r company block id d).1.terminals
              ≡ update (by_id company id) f d.terminals =
            ground (arith, goes) in
          rw rows (update-IsOff company id f d.terminals (λ t. refl) (λ t. refl))
      off deactivate t goes =
          let f : Terminal → Terminal = λ t. record t {
            status = inactive;
            qr_secret = none;
            deactivated_by = current_user_id r.user;
            deactivated_at = some r.now;
          } in
          let rows : (stop l ttl r company deactivate id d).1.terminals
              ≡ update (by_id company id) f d.terminals =
            ground (arith, goes) in
          rw rows (update-IsOff company id f d.terminals (λ t. refl) (λ t. refl))
      off remove t goes =
          let rows : (stop l ttl r company remove id d).1.terminals
              ≡ delete (by_id company id) d.terminals =
            ground (arith, goes) in
          let gone = find-delete_self (by_id company id) d.terminals in
          λ u found. absurd (ground (arith, rows, gone, found))

  -- Once a terminal of the company has been blocked, deactivated or deleted, no code is accepted for it
  -- any more, whatever the token, the time and the user that scans it.
  pub validate_qr_token-stop :
      (s : Stop) (r' : Request) (token : Text) (t : Terminal)
      → (stop l ttl r company s id d).0 ≡ true
      → (validate_qr_token l ttl r' company token (stop l ttl r company s id d).1).0 ≡ ok t
      → t.id ≢ id
  validate_qr_token-stop s r' token t returned accepted same =
      let (found, on, timely, unchanged) =
        validate_qr_token-IsCurrent l ttl r' company token t (stop l ttl r company s id d).1
          accepted in
      let here =
        subst (λ (i : ℕ). find (by_id company i) (stop l ttl r company s id d).1.terminals ≡ some t)
          same found in
      let off = stop-IsOff s returned t here in ground (arith, off, on)
