-- ===== src/Attendance/Replay.antt =====
-- `sync` of attendance/attendance.service.ts, as a replay of the batch in the order of time.
use vellora_backend.Prelude.{
  ℕ, ◌+◌, ◌≤◌, ◌≡◌, refl, sym, ◌∙◌, ap, Bool, ◌==◌, List, [], ◌∷◌, ◌++◌, length, All, sort_by,
  sort_insert, arith, Bool-cases, inl, inr,
}
use mathlib.Core.Path.{subst}
use mathlib.Core.List.{append-nil, append_assoc}
use vellora_backend.Nest.{Result, Done, ok, err, Exception}
use vellora_backend.Database.{select}
use vellora_backend.Access.Principal.{Request}
use vellora_backend.Attendance.Model.{Db}
use vellora_backend.Attendance.Batches.{
  SyncEvent, SyncError, SyncResult, is_not_after, apply_event, counted, flush, nothing_yet, sync,
}

abbrev pub IsOrdered : List SyncEvent → Type 0
IsOrdered [] = Unit
IsOrdered (a ∷ evs) = All (λ b. a.at_utc ≤ b.at_utc) evs × IsOrdered evs

module _ {κ} (P : SyncEvent → Type κ) where
  All-insert :
      (x : SyncEvent) (ys : List SyncEvent) → P x → All P ys → All P (sort_insert is_not_after x ys)
  All-insert x [] px h = (px, tt)
  All-insert x (y ∷ ys) px h = elim (Bool-cases (is_not_after x y)) [
    | inl first ↦ rw first (px, h)
    | inr later ↦ rw later (h.0, All-insert x ys px h.1)
  ]

All-earlier :
    (a b : ℕ) (ys : List SyncEvent)
    → a ≤ b
    → All (λ y. b ≤ y.at_utc) ys
    → All (λ y. a ≤ y.at_utc) ys
All-earlier a b [] le h = tt
All-earlier a b (y ∷ ys) le h = (omega (arith, le, h.0), All-earlier a b ys le h.1)

insert-IsOrdered :
    (x : SyncEvent) (ys : List SyncEvent) → IsOrdered ys → IsOrdered (sort_insert is_not_after x ys)
insert-IsOrdered x [] h = (tt, tt)
insert-IsOrdered x (y ∷ ys) h = elim (Bool-cases (is_not_after x y)) [
  | inl first ↦
      let le : x.at_utc ≤ y.at_utc = ground (arith, first) in
      rw first ((le, All-earlier x.at_utc y.at_utc ys le h.0), h)
  | inr later ↦ rw later (
    All-insert (λ z. y.at_utc ≤ z.at_utc) x ys (ground (arith, later)) h.0,
    insert-IsOrdered x ys h.1,
  )
]

sort-IsOrdered : (evs : List SyncEvent) → IsOrdered (sort_by is_not_after evs)
sort-IsOrdered [] = tt
sort-IsOrdered (x ∷ evs) = insert-IsOrdered x (sort_by is_not_after evs) (sort-IsOrdered evs)

select-insert :
    (t : ℕ) (x : SyncEvent) (ys : List SyncEvent)
    → select (λ e. e.at_utc == t) (sort_insert is_not_after x ys)
      ≡ select (λ e. e.at_utc == t) (x ∷ ys)
select-insert t x [] = refl
select-insert t x (y ∷ ys) = ground (arith, select-insert t x ys)

select-sort :
    (t : ℕ) (evs : List SyncEvent)
    → select (λ e. e.at_utc == t) (sort_by is_not_after evs) ≡ select (λ e. e.at_utc == t) evs
select-sort t [] = refl
select-sort t (x ∷ evs) =
    select-insert t x (sort_by is_not_after evs) ∙ ground (arith, select-sort t evs)

module _ (refuses : ℕ → ℕ → Bool) (r : Request) (company : ℕ) where
  -- A replay of events from an index on takes the database to another, applies so many of them, and
  -- makes a list of errors: each event is applied to what the one before it left, and one that throws
  -- gives the error with its index, and what it had written stays.
  pub data IsReplay : ℕ → List SyncEvent → Db → ℕ → List SyncError → Db → Type 0 where
    done : {i : ℕ} {d : Db} → IsReplay i [] d 0 [] d
    applies :
        {i n : ℕ} {ev : SyncEvent} {evs : List SyncEvent} {es : List SyncError} {d d' d'' : Db}
        → apply_event refuses r company ev d ≡ (ok tt, d')
        → IsReplay (i + 1) evs d' n es d''
        → IsReplay i (ev ∷ evs) d (n + 1) es d''
    throws :
        {i n : ℕ} {ev : SyncEvent} {evs : List SyncEvent} {es : List SyncError} {d d' d'' : Db}
        {e : Exception}
        → apply_event refuses r company ev d ≡ (err e, d')
        → IsReplay (i + 1) evs d' n es d''
        → IsReplay i (ev ∷ evs) d n (record { index = i; error = e } ∷ es) d''

  pub record IsSynced (events : List SyncEvent) (d : Db) (res : SyncResult) (d' : Db) : Type 0 where
    pub evs : List SyncEvent
    pub ordered : IsOrdered evs
    pub same : (t : ℕ) → select (λ e. e.at_utc == t) evs ≡ select (λ e. e.at_utc == t) events
    pub replay : IsReplay 0 evs d res.applied res.errors d'
    pub failed : res.failed ≡ length res.errors

  -- What the loop adds to the counts that it starts with.
  IsFlushed : List SyncEvent → ℕ → SyncResult → Db → SyncResult × Db → Type 0
  IsFlushed evs index x d (res, d') =
      (n : ℕ) × (es : List SyncError) × (res ≡ record {
        applied = x.applied + n;
        failed = x.failed + length es;
        errors = x.errors ++ es;
      })
      × IsReplay index evs d n es d'

  flush-IsFlushed :
      (evs : List SyncEvent) (index : ℕ) (x : SyncResult) (d : Db)
      → IsFlushed evs index x d (flush refuses r company evs index x d)
  unfolding flush IsFlushed
  flush-IsFlushed [] index x d = (0, [], ground (arith, append-nil x.errors), done)
  flush-IsFlushed (ev ∷ evs) index x d =
      let m = apply_event refuses r company ev d in
      round m.0 m.1 refl
        (flush-IsFlushed evs (index + 1) (counted refuses r company index m.0 x) m.1)
    where
      round :
          (res : Result Done) (d' : Db)
          → apply_event refuses r company ev d ≡ (res, d')
          → IsFlushed evs
              (index + 1)
              (counted refuses r company index res x)
              d'
              (flush refuses r company evs (index + 1) (counted refuses r company index res x) d')
          → IsFlushed
              (ev ∷ evs)
              index
              x
              d
              (flush refuses r company evs (index + 1) (counted refuses r company index res x) d')
      round (ok a) d' e (n, es, adds, rest) = (n + 1, es, ground (arith, adds), applies e rest)
      round (err why) d' e (n, es, adds, rest) =
          let error : SyncError = record { index = index; error = why } in
          (
            n,
            error ∷ es,
            ground (arith, adds, append_assoc x.errors (error ∷ []) es),
            throws e rest,
          )

  -- `sync` replays the batch in the order of time, events of one time in the order of the batch: each
  -- event is applied to what the events before it left, `applied` counts those that went through, and
  -- `errors`, whose length is `failed`, lists in order those that threw, each with its index in that
  -- order and its exception.
  pub sync-IsSynced :
      (events : List SyncEvent) (d : Db)
      → IsSynced events d (sync refuses r company events d).0 (sync refuses r company events d).1
  unfolding sync IsFlushed
  sync-IsSynced events d =
      let (n, es, adds, rest) =
        flush-IsFlushed (sort_by is_not_after events) 0 (nothing_yet refuses r company) d in
      let counts : (sync refuses r company events d).0
          ≡ record { applied = n; failed = length es; errors = es } =
        ground (arith, adds) in
      record {
        evs = sort_by is_not_after events;
        ordered = sort-IsOrdered events;
        same = λ t. select-sort t events;
        replay =
            subst
              (λ (x : SyncResult).
                IsReplay 0 (sort_by is_not_after events) d x.applied x.errors
                  (sync refuses r company events d).1)
              (sym counts) rest;
        failed = ap (λ x. x.failed) counts ∙ ap (λ x. length x.errors) (sym counts);
      }
