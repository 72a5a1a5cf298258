-- ===== src/Scheduling/Suggestions.antt =====
-- `suggestions` of scheduling/scheduling.service.ts. The reason of a suggestion repeats its number and is
-- left out.
pub mod Ranges
use vellora_backend.Prelude.{
  ℕ, ◌+◌, ◌-◌, Bool, true, false, ◌&&◌, Option, none, some, String, List, [], ◌∷◌, ◌++◌, ◌==◌, ltb,
  if◌then◌else◌,
}
use vellora_backend.Nest.{Action, pure, ◌>>=◌}
use vellora_backend.Access.Principal.{Request}
use vellora_backend.Scheduling.Model.{Db}
use vellora_backend.Scheduling.Planning.{coverage}
use vellora_backend.Scheduling.Cells.{Cell}

pub record Suggestion : Type 0 where
  pub store_id : ℕ
  pub date : ℕ
  pub from_hour : ℕ
  pub to_hour : ℕ
  pub add_staff : ℕ

pub record Run : Type 0 where
  pub date : ℕ
  pub from_hour : ℕ
  pub to_hour : ℕ
  pub deficit : ℕ

abbrev pub suggestion_of : ℕ → Run → Suggestion
suggestion_of store_id run = record {
  store_id = store_id;
  date = run.date;
  from_hour = run.from_hour;
  to_hour = run.to_hour + 1;
  add_staff = run.deficit;
}

-- What `flush` leaves in `suggestions`.
abbrev pub flush : ℕ → Option Run → List Suggestion → List Suggestion
flush store_id none found = found
flush store_id (some run) found = found ++ suggestion_of store_id run ∷ []

-- `c.required - c.scheduled` where it is positive.
abbrev pub deficit : Cell → ℕ
deficit c = c.required - c.scheduled

-- `run && run.date === c.date && run.deficit === deficit && run.toHour === c.hour - 1`
abbrev pub continues : Option Run → Cell → Bool
continues none c = false
continues (some run) c = run.date == c.date && run.deficit == deficit c && run.to_hour + 1 == c.hour

abbrev pub extended : Option Run → Cell → Option Run
extended none c = none
extended (some run) c = some (record run { to_hour = c.hour })

abbrev pub started : Cell → Option Run
started c =
    if ltb 0 (deficit c)
    then some (record { date = c.date; from_hour = c.hour; to_hour = c.hour; deficit = deficit c })
    else none

-- The rounds over the cells that are left, with the open run and the suggestions so far.
unfoldable pub scan : ℕ → List Cell → Option Run → List Suggestion → List Suggestion
scan store_id [] run found = flush store_id run found
scan store_id (c ∷ cells) run found = elim (ltb 0 (deficit c) && continues run c) [
  | true ↦ scan store_id cells (extended run c) found
  | false ↦ scan store_id cells (started c) (flush store_id run found)
]

unfoldable pub suggestions : Request → ℕ → ℕ → ℕ → ℕ → Action Db (List Suggestion)
unfolding coverage scan
suggestions r company store_id since last = do
  cells ← coverage r company store_id since last
  pure (scan store_id cells none [])
