-- ===== src/Transfers/Sweep/Rows.antt =====
-- The rows of the transfer table with their links left out, and the rows that a list of ids marks.
use vellora_backend.Prelude.{
  ℕ, ◌≡◌, refl, Bool, true, false, ◌&&◌, none, List, [], ◌∷◌, map, arith, ◌==◌, if◌then◌else◌,
  includes, All, Bool-cases, inl, inr, ap, ==_iff,
}
use mathlib.Core.Path.{ap₂, subst}
use vellora_backend.Database.{find, select, update}
use vellora_backend.Transfers.Model.{Transfer, Status, by_id}

abbrev pub view : Transfer → Transfer
view r = record r { link_id = none }

abbrev pub with_status : Status → Transfer → Transfer
with_status s r = record r { link_id = none; status = s }

abbrev pub ids : List Transfer → List ℕ
ids [] = []
ids (r ∷ t) = r.id ∷ ids t

-- No two rows have one primary key.
abbrev pub IsKeyed : List Transfer → Type 0
IsKeyed [] = Unit
IsKeyed (r ∷ t) = (find (by_id r.company_id r.id) t ≡ none) × IsKeyed t

module _ (company : ℕ) where
  abbrev pub is_marked : List ℕ → Transfer → Bool
  is_marked is r = r.company_id == company && includes is r.id

  abbrev pub mark : List ℕ → Status → Transfer → Transfer
  mark is s r = if is_marked is r then with_status s r else view r

  mark-written :
      (i : ℕ) (is : List ℕ) (s : Status) (r w : Transfer)
      → view w ≡ with_status s r
      → mark is s (if by_id company i r then w else r) ≡ mark (i ∷ is) s r
  mark-written i is s r w e = ground (
    arith,
    e,
    ap (λ (x : Transfer). x.company_id) e,
    ap (λ (x : Transfer). x.id) e,
    ap (with_status s) e,
  )

  -- Writing a status at one id, and marking more ids afterwards.
  pub mark-update :
      (i : ℕ) (is : List ℕ) (s : Status) (f : Transfer → Transfer) (t : List Transfer)
      → ((r : Transfer) → view (f r) ≡ with_status s r)
      → map (mark is s) (update (by_id company i) f t) ≡ map (mark (i ∷ is) s) t
  mark-update i is s f [] writes = refl
  mark-update i is s f (r ∷ t) writes =
      ap₂ ◌∷◌ (mark-written i is s r (f r) (writes r)) (mark-update i is s f t writes)

  pub map-view : (t : List Transfer) (s : Status) → map (mark [] s) t ≡ map view t
  map-view [] s = refl
  map-view (r ∷ t) s = ground (arith, map-view t s)

  module _ (p : Transfer → Bool)
      (own : (r : Transfer) → p r ≡ true → (r.company_id == company) ≡ true) where
    absent :
        (i : ℕ) (t : List Transfer)
        → find (by_id company i) t ≡ none
        → includes (ids (select p t)) i ≡ false
    absent i [] e = refl
    absent i (r ∷ t) e = ground (arith, own r, absent i t)

    selected_tail :
        (x : Transfer) (t u : List Transfer)
        → IsKeyed t
        → p x ≡ true
        → find (by_id company x.id) t ≡ none
        → All (λ r. is_marked (ids (select p u)) r ≡ p r) t
        → All (λ r. is_marked (x.id ∷ ids (select p u)) r ≡ p r) t
    selected_tail x [] u keyed px fresh h = tt
    selected_tail x (r ∷ t) u keyed px fresh h = (ground arith, ground (arith, selected_tail x t u))

    missed :
        (r : Transfer) (t : List Transfer)
        → find (by_id r.company_id r.id) t ≡ none
        → is_marked (ids (select p t)) r ≡ false
    missed r t e = elim (Bool-cases (r.company_id == company)) [
      | inl here ↦ rw here (absent r.id t (rw ((==_iff _ _).0 here) at e))
      | inr other ↦ rw other
    ]

    abbrev Marks : List Transfer → List ℕ → Type 0
    Marks t is = All (λ x. is_marked is x ≡ p x) t

    ids_hit :
        (r : Transfer) (t : List Transfer)
        → p r ≡ true
        → r.id ∷ ids (select p t) ≡ ids (select p (r ∷ t))
    ids_hit r t hit = rw hit

    ids_miss :
        (r : Transfer) (t : List Transfer) → p r ≡ false → ids (select p t) ≡ ids (select p (r ∷ t))
    ids_miss r t miss = rw miss

    -- With distinct keys the ids of the selected rows mark exactly those rows.
    pub selected_marks :
        (t : List Transfer) → IsKeyed t → All (λ r. is_marked (ids (select p t)) r ≡ p r) t
    selected_marks [] keyed = tt
    selected_marks (r ∷ t) keyed = elim (Bool-cases (p r)) [
      | inl hit ↦
          let here : r.company_id ≡ company = (==_iff _ _).0 (own r hit) in
          subst (Marks (r ∷ t)) (ids_hit r t hit) (
            ground (arith, own r hit),
            selected_tail r t t keyed.1 hit (rw here at keyed.0) (selected_marks t keyed.1),
          )
      | inr miss ↦
          subst (Marks (r ∷ t)) (ids_miss r t miss)
            (rw miss (missed r t keyed.0), selected_marks t keyed.1)
    ]

  pub mark-select :
      (p : Transfer → Bool) (is : List ℕ) (s : Status) (t : List Transfer)
      → All (λ r. is_marked is r ≡ p r) t
      → map (mark is s) t ≡ map (λ r. if p r then with_status s r else view r) t
  mark-select p is s [] h = refl
  mark-select p is s (r ∷ t) h = rw (h.0, mark-select p is s t h.1) refl
