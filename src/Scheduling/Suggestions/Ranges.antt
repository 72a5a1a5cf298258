-- ===== src/Scheduling/Suggestions/Ranges.antt =====
-- The ranges that `suggestions` returns against the hours that are short of staff.
use vellora_backend.Prelude.{
  ℕ, zero, suc, ◌+◌, ◌-◌, ◌≤◌, ◌≡◌, refl, sym, ◌∙◌, ap, true, false, ◌&&◌, Option, none, some, List,
  [], ◌∷◌, ◌++◌, ltb, if◌then◌else◌, arith, Bool-cases, inl, inr,
}
use mathlib.Core.List.{append_assoc, append-nil}
use vellora_backend.Nest.{ok, outcomes, pure, >>=-ok}
use vellora_backend.Access.Principal.{Request}
use vellora_backend.Scheduling.Model.{Db}
use vellora_backend.Scheduling.Planning.{coverage}
use vellora_backend.Scheduling.Cells.{Cell}
use vellora_backend.Scheduling.Suggestions.{
  Suggestion, Run, suggestion_of, flush, deficit, continues, extended, started, scan, suggestions,
}

-- An hour of a day and how many are missing in it.
pub record Gap : Type 0 where
  pub date : ℕ
  pub hour : ℕ
  pub missing : ℕ

-- The description: the cells that require more than is scheduled.
abbrev pub gaps : List Cell → List Gap
gaps [] = []
gaps (c ∷ cells) =
    let rest = gaps cells in
    if ltb c.scheduled c.required
    then record { date = c.date; hour = c.hour; missing = c.required - c.scheduled } ∷ rest
    else rest

-- The hours of a range, from `hour` on.
abbrev pub hours : ℕ → ℕ → ℕ → ℕ → List Gap
hours date missing hour zero = []
hours date missing hour (suc n) =
    record { date = date; hour = hour; missing = missing } ∷ hours date missing (hour + 1) n

abbrev pub covered : List Suggestion → List Gap
covered [] = []
covered (s ∷ rest) = hours s.date s.add_staff s.from_hour (s.to_hour - s.from_hour) ++ covered rest

abbrev of_run : Option Run → List Gap
of_run none = []
of_run (some run) = hours run.date run.deficit run.from_hour (run.to_hour + 1 - run.from_hour)

abbrev IsForward : Option Run → Type 0
IsForward none = Unit
IsForward (some run) = run.from_hour ≤ run.to_hour

hours-suc :
    (date missing hour n : ℕ)
    → hours date missing hour (suc n)
      ≡ hours date missing hour n ++ record { date = date; hour = hour + n; missing = missing } ∷ []
hours-suc date missing hour zero = ground arith
hours-suc date missing hour (suc n) =
    let ih = hours-suc date missing (hour + 1) n in ground (arith, ih)

covered-append : (a b : List Suggestion) → covered (a ++ b) ≡ covered a ++ covered b
covered-append [] b = refl
covered-append (s ∷ a) b =
    ap (λ t. hours s.date s.add_staff s.from_hour (s.to_hour - s.from_hour) ++ t)
      (covered-append a b)
    ∙ sym (
        append_assoc (hours s.date s.add_staff s.from_hour (s.to_hour - s.from_hour)) (covered a)
          (covered b))

abbrev gap_of : Cell → Gap
gap_of c = record { date = c.date; hour = c.hour; missing = deficit c }

-- The next hour of a run.
run-extended :
    (run : Run) (c : Cell) (rest : List Gap)
    → run.from_hour ≤ run.to_hour
    → continues (some run) c ≡ true
    → of_run (extended (some run) c) ++ rest ≡ of_run (some run) ++ (gap_of c ∷ rest)
run-extended run c rest forward next =
    let n : ℕ = run.to_hour + 1 - run.from_hour in
    let more : c.hour + 1 - run.from_hour ≡ suc n = ground (arith, forward, next) in
    let last : gap_of c
        ≡ record { date = run.date; hour = run.from_hour + n; missing = run.deficit } =
      ground (arith, forward, next) in
    ap (λ m. hours run.date run.deficit run.from_hour m ++ rest) more
    ∙ ap (λ t. t ++ rest) (hours-suc run.date run.deficit run.from_hour n)
    ∙ append_assoc (hours run.date run.deficit run.from_hour n)
        (record { date = run.date; hour = run.from_hour + n; missing = run.deficit } ∷ []) rest
    ∙ ap (λ g. hours run.date run.deficit run.from_hour n ++ (g ∷ rest)) (sym last)

flush-covered :
    (store_id : ℕ) (run : Option Run) (found : List Suggestion) (rest : List Gap)
    → covered (flush store_id run found) ++ rest ≡ covered found ++ (of_run run ++ rest)
flush-covered store_id none found rest = refl
flush-covered store_id (some run) found rest =
    let here = of_run (some run) in
    ap (λ t. t ++ rest)
      (covered-append found (suggestion_of store_id run ∷ [])
        ∙ ap (λ t. covered found ++ t) (append-nil here))
    ∙ append_assoc (covered found) here rest

IsForward-extended :
    (run : Option Run) (c : Cell)
    → IsForward run
    → continues run c ≡ true
    → IsForward (extended run c)
IsForward-extended none c forward next = tt
IsForward-extended (some run) c forward next = ground (arith, forward, next)

IsForward-started : (c : Cell) → IsForward (started c)
IsForward-started c = ground arith

of_run-extended :
    (run : Option Run) (c : Cell) (rest : List Gap)
    → IsForward run
    → continues run c ≡ true
    → of_run (extended run c) ++ rest ≡ of_run run ++ (gap_of c ∷ rest)
of_run-extended none c rest forward next = absurd (ground (arith, next))
of_run-extended (some run) c rest forward next = run-extended run c rest forward next

of_run-started :
    (c : Cell) (cells : List Cell) → of_run (started c) ++ gaps cells ≡ gaps (c ∷ cells)
of_run-started c cells = ground arith

scan-extended :
    (store_id : ℕ) (c : Cell) (cells : List Cell) (run : Option Run) (found : List Suggestion)
    → (ltb 0 (deficit c) && continues run c) ≡ true
    → scan store_id (c ∷ cells) run found ≡ scan store_id cells (extended run c) found
unfolding scan
scan-extended store_id c cells run found both = ground (arith, both)

scan-started :
    (store_id : ℕ) (c : Cell) (cells : List Cell) (run : Option Run) (found : List Suggestion)
    → (ltb 0 (deficit c) && continues run c) ≡ false
    → scan store_id (c ∷ cells) run found
      ≡ scan store_id cells (started c) (flush store_id run found)
unfolding scan
scan-started store_id c cells run found new = ground (arith, new)

-- The suggestions of a scan cover what was found, the open run, and the gaps of the cells that are left.
scan-gaps :
    (store_id : ℕ) (cells : List Cell) (run : Option Run) (found : List Suggestion)
    → IsForward run
    → covered (scan store_id cells run found) ≡ covered found ++ (of_run run ++ gaps cells)
unfolding scan
scan-gaps store_id [] run found forward =
    sym (append-nil (covered (flush store_id run found))) ∙ flush-covered store_id run found []
scan-gaps store_id (c ∷ cells) run found forward =
    elim (Bool-cases (ltb 0 (deficit c) && continues run c)) [
      | inl both ↦
          ap covered (scan-extended store_id c cells run found both)
          ∙ scan-gaps store_id cells (extended run c) found
              (IsForward-extended run c forward (ground (arith, both)))
          ∙ ap (λ t. covered found ++ t)
              (of_run-extended run c (gaps cells) forward (ground (arith, both))
                ∙ ap (λ t. of_run run ++ t) (is_gap (ground (arith, both))))
      | inr new ↦
          ap covered (scan-started store_id c cells run found new)
          ∙ scan-gaps store_id cells (started c) (flush store_id run found) (IsForward-started c)
          ∙ ap (λ t. covered (flush store_id run found) ++ t) (of_run-started c cells)
          ∙ flush-covered store_id run found (gaps (c ∷ cells))
    ]
  where
    is_gap : ltb 0 (deficit c) ≡ true → gap_of c ∷ gaps cells ≡ gaps (c ∷ cells)
    is_gap short = ground (arith, short)

-- The ranges of the suggestions, hour by hour and in order, are the hours of the coverage that require
-- more staff than is scheduled, each with the number that is missing.
pub covered-suggestions :
    (r : Request) (company store_id since last : ℕ) (found : List Suggestion) (d d' : Db)
    → suggestions r company store_id since last d ≡ (ok found, d')
    → (cells : List Cell) × (coverage r company store_id since last d ≡ (ok cells, d'))
      × (covered found ≡ gaps cells)
unfolding suggestions
covered-suggestions r company store_id since last found d d' returned =
    elim (outcomes (coverage r company store_id since last d)
      (coverage r company store_id since last d).1 refl) [
        | inr (e, threw) ↦ absurd (ground (arith, threw, returned))
        | inl (cells, ran) ↦
            let here : (
              ok (scan store_id cells none []),
              (coverage r company store_id since last d).1,
            )
                ≡ (ok found, d') =
              sym (
                >>=-ok (coverage r company store_id since last)
                  (λ cells. pure (scan store_id cells none [])) d cells
                  (coverage r company store_id since last d).1 ran)
              ∙ returned in
            let same : (coverage r company store_id since last d).1 ≡ d' = ap (λ x. x.1) here in
            let out : scan store_id cells none [] ≡ found = ok_eq (ap (λ x. x.0) here) in
            (
              cells,
              ran ∙ ap (λ x. (ok cells, x)) same,
              ap covered (sym out) ∙ scan-gaps store_id cells none [] tt,
            )
      ]
  where
    ok_eq : {v w : List Suggestion} → ok v ≡ ok w → v ≡ w
    ok_eq e = cc
