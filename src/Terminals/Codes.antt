-- ===== src/Terminals/Codes.antt =====
-- The QR codes of devices/devices.service.ts, from the kiosk that shows them to the punch that scans them.
use mathlib.Core.Option.{get_or}
use vellora_backend.Prelude.{
  ℕ, ◌+◌, ◌*◌, ◌≤◌, ◌≡◌, refl, sym, ◌∙◌, ap, true, false, Option, some, [], ◌∷◌, ◌++◌, arith,
  Bool-cases, Option-cases, inl, inr,
}
use mathlib.Core.Path.{subst}
use vellora_backend.Nest.{Result, ok}
use vellora_backend.Database.{find, update}
use vellora_backend.Database.Laws.{find-update, find-holds}
use vellora_backend.Access.Principal.{Request, scoped_store_ids, is_out_of_scope}
use vellora_backend.Terminals.Qr.{Text, Library, IsSound, colon, split_colon-append, same_text_refl}
use vellora_backend.Terminals.Model.{
  Terminal, Db, TerminalStatus, active, is_active, by_id, update_terminal,
}
use vellora_backend.Terminals.Service.{
  QrView, is_stale, get_terminal, get_qr, rotate, rotated, payload_of, view_of, validate_qr_token,
  find_terminal_by_text,
}

module _ (l : Library) (ttl : ℕ) (r : Request) (company : ℕ) where
  pub looked_up :
      (id : ℕ) (t : Text) (found : Option Terminal) (d : Db)
      → l.id_of_text t ≡ some id
      → find (by_id company id) d.terminals ≡ found
      → find_terminal_by_text l ttl r company t d ≡ (ok found, d)
  unfolding find_terminal_by_text
  looked_up id t found d read here = ground (arith, read, here)

  -- A token that carries the current secret of an active terminal is accepted within its time.
  accepted :
      (t : Terminal) (c : ℕ) (s : Text) (at : ℕ) (d : Db)
      → IsSound l
      → find (by_id company t.id) d.terminals ≡ some t
      → t.status ≡ active
      → t.qr_secret ≡ some (c ∷ s)
      → t.qr_rotated_at ≡ some at
      → r.now ≤ at + ttl * 1000
      → validate_qr_token l ttl r company (payload_of l ttl r company t) d ≡ (ok t, d)
  unfolding validate_qr_token
  accepted t c s at d sound found on secret turned soon =
      let payload : payload_of l ttl r company t
          ≡ l.to_base64url (l.id_text t.id ++ colon ∷ c ∷ s) =
        rw secret refl in
      let split = split_colon-append (l.id_text t.id) (c ∷ s) (sound.no_colon t.id) in
      let here = looked_up t.id (l.id_text t.id) (some t) d (sound.reads_id t.id) found in
      let same = same_text_refl (c ∷ s) in
      rw (payload, sound.decodes (l.id_text t.id ++ colon ∷ c ∷ s), split)
        (ground (arith, here, on, secret, turned, same))

-- A terminal that is not stale has a secret and the time when it was set.
fresh_parts :
    (ttl now : ℕ) (t : Terminal)
    → is_stale ttl now t ≡ false
    → (c : ℕ) × (s : Text) × (at : ℕ) × (t.qr_secret ≡ some (c ∷ s)) × (t.qr_rotated_at ≡ some at)
fresh_parts ttl now t fresh = elim (Option-cases t.qr_secret) [
  | inl unset ↦ absurd (ground (arith, unset))
  | inr (q, secret) ↦ elim (Option-cases t.qr_rotated_at) [
    | inl never ↦ absurd (ground (arith, secret, never))
    | inr (at, turned) ↦ parts q at secret turned
  ]
]
  where
    parts :
        (q : Text) (at : ℕ)
        → t.qr_secret ≡ some q
        → t.qr_rotated_at ≡ some at
        → (c : ℕ) × (s : Text) × (at : ℕ) × (t.qr_secret ≡ some (c ∷ s))
          × (t.qr_rotated_at ≡ some at)
    parts [] at secret turned = absurd (ground (arith, secret))
    parts (c ∷ s) at secret turned = (c, s, at, secret, turned)

module _ (l : Library) (sound : IsSound l) (ttl : ℕ) (company : ℕ) where
  -- `getQr` ends normally only for an active terminal of the company.
  shown :
      (r : Request) (id : ℕ) (q : QrView) (d : Db)
      → (get_qr l ttl r company id d).0 ≡ ok q
      → (t : Terminal) × (get_terminal l ttl r company id d ≡ (ok t, d))
        × (find (by_id company id) d.terminals ≡ some t)
        × (t.status ≡ active)
  unfolding get_qr get_terminal
  shown r id q d returned = elim (Option-cases (find (by_id company id) d.terminals)) [
    | inl unknown ↦ absurd (ground (arith, unknown, returned))
    | inr (t, found) ↦
        elim (Bool-cases (is_out_of_scope (scoped_store_ids r.user) (some t.store_id))) [
          | inl out ↦ absurd (ground (arith, found, out, returned))
          | inr reach ↦ (
            t,
            ground (arith, found, reach),
            found,
            is_on t.status (ground (arith, found, reach, returned)),
          )
        ]
  ]
    where
      is_on : (s : TerminalStatus) → is_active s ≡ true → s ≡ active
      is_on s on = ground (arith, on)

  -- The terminal that `getQr` shows stands in the table afterwards, with the secret that is shown.
  stands :
      (r : Request) (id : ℕ) (q : QrView) (d : Db)
      → (get_qr l ttl r company id d).0 ≡ ok q
      → (t : Terminal) × (c : ℕ) × (s : Text) × (at : ℕ) × (d' : Db) × (get_qr l ttl r company id d
          ≡ (ok (view_of l ttl r company t), d'))
        × (find (by_id company t.id) d'.terminals ≡ some t)
        × (t.status ≡ active)
        × (t.qr_secret ≡ some (c ∷ s))
        × (t.qr_rotated_at ≡ some at)
  unfolding get_qr rotate update_terminal
  stands r id q d returned =
      let (t, goes, found, on) = shown r id q d returned in
      let same_id : t.id ≡ id = own_id t id (find-holds (by_id company id) d.terminals t found) in
      elim (Bool-cases (is_stale (ttl * 1000) r.now t)) [
        | inr fresh ↦
            let (c, s, at, secret, turned) = fresh_parts (ttl * 1000) r.now t fresh in
            (t, c, s, at, d, ground (arith, goes, on, fresh), rw same_id found, on, secret, turned)
        | inl stale ↦
            let (c, s, drawn) = sound.not_empty d.drawn in
            let f : Terminal → Terminal = rotated l ttl r company d.drawn in
            let d' : Db = record d {
              terminals = update (by_id company id) f d.terminals;
              drawn = d.drawn + 1;
            } in
            let hit : by_id company id t ≡ true =
              find-holds (by_id company id) d.terminals t found in
            let written : find (by_id company id) (update (by_id company id) f d.terminals)
                ≡ some (f t) =
              rw
                (
                  find-update (by_id company id) (by_id company id) f d.terminals (λ w. refl),
                  found,
                  hit,
                )
                refl in
            (
              f t,
              c,
              s,
              r.now,
              d',
              ground (arith, goes, on, stale, written),
              subst
                  (λ (i : ℕ).
                    find (by_id company i) (update (by_id company id) f d.terminals) ≡ some (f t))
                  (sym same_id) written,
              on,
              ap some drawn,
              refl,
            )
      ]
    where
      own_id : (t : Terminal) (id : ℕ) → by_id company id t ≡ true → t.id ≡ id
      own_id t id hit = ground arith

  -- The code that `getQr` returns is accepted by `validateQrToken`, whoever scans it, until it expires,
  -- and stands for the terminal and the store that were named with it.
  pub validate_qr_token-get_qr :
      (r r' : Request) (id : ℕ) (q : QrView) (d : Db)
      → (get_qr l ttl r company id d).0 ≡ ok q
      → r'.now ≤ q.expires_at
      → (t : Terminal) × (validate_qr_token l ttl r' company q.payload
            (get_qr l ttl r company id d).1
          ≡ (ok t, (get_qr l ttl r company id d).1))
        × (t.id ≡ q.terminal_id)
        × (t.store_id ≡ q.store_id)
  validate_qr_token-get_qr r r' id q d returned soon =
      let (t, c, s, at, d', shows, found, on, secret, turned) = stands r id q d returned in
      let view : view_of l ttl r company t ≡ q =
        ok_eq (sym (ap (λ (x : Result QrView × Db). x.0) shows) ∙ returned) in
      let until : r'.now ≤ at + ttl * 1000 =
        subst (λ (o : Option ℕ). r'.now ≤ get_or o r.now + ttl * 1000) turned
          (subst (λ (v : QrView). r'.now ≤ v.expires_at) (sym view) soon) in
      (
        t,
        subst
            (λ (x : Result QrView × Db).
              validate_qr_token l ttl r' company q.payload x.1 ≡ (ok t, x.1))
            (sym shows)
            (subst (λ (v : QrView). validate_qr_token l ttl r' company v.payload d' ≡ (ok t, d'))
              view (accepted l ttl r' company t c s at d' sound found on secret turned until)),
        ap (λ (v : QrView). v.terminal_id) view,
        ap (λ (v : QrView). v.store_id) view,
      )
    where
      ok_eq : {v w : QrView} → ok v ≡ ok w → v ≡ w
      ok_eq e = cc
