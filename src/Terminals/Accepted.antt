-- ===== src/Terminals/Accepted.antt =====
-- What `validateQrToken` of devices/devices.service.ts accepts.
use vellora_backend.Prelude.{
  ℕ, ◌+◌, ◌*◌, ◌≤◌, ◌≡◌, refl, sym, ◌∙◌, ap, true, false, Option, none, some, arith, Bool-cases,
  Option-cases, inl, inr,
}
use mathlib.Core.Path.{subst}
use vellora_backend.Nest.{ok}
use vellora_backend.Database.{find}
use vellora_backend.Database.Laws.{find-holds}
use vellora_backend.Access.Principal.{Request}
use vellora_backend.Terminals.Qr.{Text, Library, split_colon}
use vellora_backend.Terminals.Model.{Terminal, Db, active, is_active, by_id}
use vellora_backend.Terminals.Service.{
  validate_qr_token, is_wrong_secret, is_expired, find_terminal_by_text,
}
use vellora_backend.Terminals.Codes.{looked_up}

module _ (l : Library) (ttl : ℕ) (r : Request) (company : ℕ) where
  -- What `validateQrToken` accepts: the terminal that it returns is the company's own and active, was
  -- given its secret at most the lifetime of a code ago, and the database is as it was.
  pub validate_qr_token-IsCurrent :
      (token : Text) (t : Terminal) (d : Db)
      → (validate_qr_token l ttl r company token d).0 ≡ ok t
      → (find (by_id company t.id) d.terminals ≡ some t)
        × (t.status ≡ active)
        × ((at : ℕ) × (t.qr_rotated_at ≡ some at) × (r.now ≤ at + ttl * 1000))
        × ((validate_qr_token l ttl r company token d).1 ≡ d)
  unfolding validate_qr_token find_terminal_by_text
  validate_qr_token-IsCurrent token t d returned = elim (Option-cases (l.from_base64url token)) [
    | inl garbled ↦ absurd (ground (arith, garbled, returned))
    | inr (decoded, read) ↦ elim (Option-cases (split_colon decoded)) [
      | inl whole ↦ absurd (ground (arith, read, whole, returned))
      | inr ((a, b), split) ↦ elim (Option-cases (l.id_of_text a)) [
        | inl odd ↦ absurd (ground (arith, read, split, odd, returned))
        | inr (i, named) ↦
            let here =
              looked_up l ttl r company i a (find (by_id company i) d.terminals) d named refl in
            elim (Option-cases (find (by_id company i) d.terminals)) [
              | inl unknown ↦ absurd (ground (arith, read, split, here, unknown, returned))
              | inr (u, found) ↦
                  let here' : find_terminal_by_text l ttl r company a d ≡ (ok (some u), d) =
                    rw here (ap (λ (o : Option Terminal). (ok o, d)) found) in
                  current i u found (checks decoded a b u read split here')
            ]
      ]
    ]
  ]
    where
      Checked : Terminal → Type 0
      Checked u =
          (u ≡ t)
          × (is_active u.status ≡ true)
          × (is_expired l ttl r company u.qr_rotated_at ≡ false)
          × ((validate_qr_token l ttl r company token d).1 ≡ d)

      checks :
          (decoded a b : Text) (u : Terminal)
          → l.from_base64url token ≡ some decoded
          → split_colon decoded ≡ some (a, b)
          → find_terminal_by_text l ttl r company a d ≡ (ok (some u), d)
          → Checked u
      checks decoded a b u read split here = elim (Bool-cases (is_active u.status)) [
        | inr off ↦ absurd (ground (arith, read, split, here, off, returned))
        | inl on ↦ elim (Bool-cases (is_wrong_secret l ttl r company u.qr_secret b)) [
          | inl wrong ↦ absurd (ground (arith, read, split, here, on, wrong, returned))
          | inr right ↦ elim (Bool-cases (is_expired l ttl r company u.qr_rotated_at)) [
            | inl late ↦ absurd (ground (arith, read, split, here, on, right, late, returned))
            | inr timely ↦ (
              ground (arith, read, split, here, on, right, timely, returned),
              on,
              timely,
              ground (arith, read, split, here, on, right, timely),
            )
          ]
        ]
      ]

      current :
          (i : ℕ) (u : Terminal)
          → find (by_id company i) d.terminals ≡ some u
          → Checked u
          → (find (by_id company t.id) d.terminals ≡ some t)
            × (t.status ≡ active)
            × ((at : ℕ) × (t.qr_rotated_at ≡ some at) × (r.now ≤ at + ttl * 1000))
            × ((validate_qr_token l ttl r company token d).1 ≡ d)
      current i u found (same, on, timely, unchanged) =
          let hit : by_id company i u ≡ true = find-holds (by_id company i) d.terminals u found in
          (
            by_own_id i u found hit same,
            ground (arith, on, same),
            timed u.qr_rotated_at (ap (λ (x : Terminal). x.qr_rotated_at) (sym same)) timely,
            unchanged,
          )
        where
          by_own_id :
              (i : ℕ) (u : Terminal)
              → find (by_id company i) d.terminals ≡ some u
              → by_id company i u ≡ true
              → u ≡ t
              → find (by_id company t.id) d.terminals ≡ some t
          by_own_id i u found hit same =
              let at_id : t.id ≡ i = ground (arith, hit, same) in
              subst (λ (j : ℕ). find (by_id company j) d.terminals ≡ some t) (sym at_id)
                (found ∙ ap some same)

          timed :
              (o : Option ℕ)
              → t.qr_rotated_at ≡ o
              → is_expired l ttl r company o ≡ false
              → (at : ℕ) × (t.qr_rotated_at ≡ some at) × (r.now ≤ at + ttl * 1000)
          timed none e late = absurd (ground (arith, late))
          timed (some at) e late = (at, e, ground (arith, late))
