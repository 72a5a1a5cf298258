-- ===== src/Terminals/Qr.antt =====
-- The text of a QR code in devices/devices.service.ts: `base64url(terminalId:secret)`. A text is the list
-- of its code points. The codec of Node, the text of an id and the random secret are parameters.
use vellora_backend.Prelude.{
  ℕ, Bool, Option, none, some, List, [], ◌∷◌, ◌++◌, ◌≡◌, ◌==◌, if◌then◌else◌, refl, true, false,
  arith, includes,
}

abbrev pub Text : Type 0
Text = List ℕ

-- `Buffer.from(…).toString('base64url')` and its converse, a column of type `uuid`, read as a text and
-- compared with one, and `newSecret`.
pub record Library : Type 0 where
  pub to_base64url : Text → Text
  pub from_base64url : Text → Option Text
  pub id_text : ℕ → Text
  pub id_of_text : Text → Option ℕ
  pub secret : ℕ → Text

abbrev pub colon : ℕ
colon = 58

-- What Node and PostgreSQL document of these: the encoding can be undone, a uuid is read back from its
-- text, which has no colon in it, and a secret is not empty.
pub record IsSound (l : Library) : Type 0 where
  pub decodes : (t : Text) → l.from_base64url (l.to_base64url t) ≡ some t
  pub reads_id : (i : ℕ) → l.id_of_text (l.id_text i) ≡ some i
  pub no_colon : (i : ℕ) → includes (l.id_text i) colon ≡ false
  pub not_empty : (n : ℕ) → (c : ℕ) × (t : Text) × (l.secret n ≡ c ∷ t)

-- `decoded.indexOf(':')`, with the two slices around it; `none` where there is no colon.
unfoldable pub split_colon : Text → Option (Text × Text)
split_colon [] = none
split_colon (c ∷ t) =
    let rest = split_colon t in
    if c == colon then some ([], t) else elim rest [ none ↦ none | some (a, b) ↦ some (c ∷ a, b) ]

pub split_colon-append :
    (a b : Text) → includes a colon ≡ false → split_colon (a ++ colon ∷ b) ≡ some (a, b)
unfolding split_colon
split_colon-append [] b e = refl
split_colon-append (c ∷ a) b e = ground (arith, split_colon-append a b)

-- `a !== b` on texts
abbrev pub same_text : Text → Text → Bool
same_text [] [] = true
same_text (c ∷ a) (d ∷ b) = let rest = same_text a b in if c == d then rest else false
same_text _ _ = false

pub same_text_refl : (a : Text) → same_text a a ≡ true
same_text_refl [] = refl
same_text_refl (c ∷ a) = ground (arith, same_text_refl a)

pub same_text_eq : (a b : Text) → same_text a b ≡ true → a ≡ b
same_text_eq [] [] e = refl
same_text_eq [] (d ∷ b) e = cc
same_text_eq (c ∷ a) [] e = cc
same_text_eq (c ∷ a) (d ∷ b) e = ground (arith, same_text_eq a b)

-- `!secret`
abbrev pub is_empty : Text → Bool
is_empty [] = true
is_empty (c ∷ t) = false
