-- ===== src/Terminals/Carried.antt =====
-- What a token that `validateQrToken` of devices/devices.service.ts accepts has in it.
use vellora_backend.Prelude.{
  ℕ, ◌≡◌, refl, sym, ◌∙◌, ap, true, false, Option, none, some, arith, Bool-cases, Option-cases, inl,
  inr,
}
use vellora_backend.Nest.{ok}
use vellora_backend.Database.{find}
use vellora_backend.Database.Laws.{find-holds}
use vellora_backend.Access.Principal.{Request}
use vellora_backend.Terminals.Qr.{Text, Library, split_colon, is_empty, same_text, same_text_eq}
use vellora_backend.Terminals.Model.{Terminal, Db, by_id}
use vellora_backend.Terminals.Service.{validate_qr_token, is_wrong_secret, find_terminal_by_text}
use vellora_backend.Terminals.Codes.{looked_up}

-- The token is the encoding of the id of the terminal and, behind the first colon, of its secret.
pub record Carries (l : Library) (token : Text) (t : Terminal) : Type 0 where
  pub decoded : Text
  pub named : Text
  pub secret : Text
  pub reads : l.from_base64url token ≡ some decoded
  pub splits : split_colon decoded ≡ some (named, secret)
  pub names : l.id_of_text named ≡ some t.id
  pub holds : t.qr_secret ≡ some secret
  pub not_empty : is_empty secret ≡ false

module _ (l : Library) (ttl : ℕ) (r : Request) (company : ℕ) where
  right_secret :
      (q : Option Text) (b : Text)
      → is_wrong_secret l ttl r company q b ≡ false
      → (q ≡ some b) × (is_empty b ≡ false)
  right_secret none b right = absurd (ground (arith, right))
  right_secret (some q) b right =
      let same : same_text q b ≡ true = ground (arith, right) in
      (ap some (same_text_eq q b same), ground (arith, right))

  pub validate_qr_token-Carries :
      (token : Text) (t : Terminal) (d : Db)
      → (validate_qr_token l ttl r company token d).0 ≡ ok t
      → Carries l token t
  unfolding validate_qr_token find_terminal_by_text
  validate_qr_token-Carries token t d returned = elim (Option-cases (l.from_base64url token)) [
    | inl garbled ↦ absurd (ground (arith, garbled, returned))
    | inr (decoded, read) ↦ elim (Option-cases (split_colon decoded)) [
      | inl whole ↦ absurd (ground (arith, read, whole, returned))
      | inr ((a, b), split) ↦ elim (Option-cases (l.id_of_text a)) [
        | inl odd ↦ absurd (ground (arith, read, split, odd, returned))
        | inr (i, named) ↦
            let here =
              looked_up l ttl r company i a (find (by_id company i) d.terminals) d named refl in
            elim (Option-cases (find (by_id company i) d.terminals)) [
              | inl unknown ↦ absurd (ground (arith, read, split, here, unknown, returned))
              | inr (u, found) ↦
                  let here' : find_terminal_by_text l ttl r company a d ≡ (ok (some u), d) =
                    rw here (ap (λ (o : Option Terminal). (ok o, d)) found) in
                  let hit : by_id company i u ≡ true =
                    find-holds (by_id company i) d.terminals u found in
                  elim (Bool-cases (is_wrong_secret l ttl r company u.qr_secret b)) [
                    | inl wrong ↦ absurd (ground (arith, read, split, here', wrong, returned))
                    | inr right ↦
                        let (held, given) = right_secret u.qr_secret b right in
                        let same : u ≡ t = ground (arith, read, split, here', right, returned) in
                        let at_id : i ≡ t.id = ground (arith, hit, same) in
                        record {
                          decoded = decoded;
                          named = a;
                          secret = b;
                          reads = read;
                          splits = split;
                          names = named ∙ ap some at_id;
                          holds = ap (λ (x : Terminal). x.qr_secret) (sym same) ∙ held;
                          not_empty = given;
                        }
                  ]
            ]
      ]
    ]
  ]
