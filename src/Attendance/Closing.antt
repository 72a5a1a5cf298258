-- ===== src/Attendance/Closing.antt =====
-- What `clockOut` of attendance/attendance.service.ts returns, and leaves of the breaks.
use vellora_backend.Prelude.{
  ℕ, ◌≡◌, ◌<◌, refl, sym, ap, Bool, true, none, some, List, leb, arith, Bool-cases, Option-cases,
  inl, inr,
}
use mathlib.Core.Option.{get_or}
use mathlib.Core.Path.{subst}
use vellora_backend.Nest.{ok, outcomes}
use vellora_backend.Database.{find, select, update}
use vellora_backend.Database.Laws.{find-holds, find-update}
use vellora_backend.Database.Totals.{IsUnique}
use vellora_backend.Database.Pairs.{find-none-select}
use vellora_backend.Access.Principal.{Request, scoped_store_ids, is_out_of_scope}
use vellora_backend.Attendance.Model.{
  AttendanceLog, AttendanceBreak, AnomalyType, closed, flagged, Db, by_id, open_break_of, open_of,
  break_by_id, latest,
}
use vellora_backend.Attendance.Queries.{
  update_log, find_open_break, find_open_log, find_log_by_id, update_break, create_anomaly,
}
use vellora_backend.Attendance.Service.{
  resolve_open_log, close_break, clock_out, detect_on_close, raise_anomaly, get_log, end_break,
}
use vellora_backend.Attendance.Rules.{PunchDto, is_unmarked}
use vellora_backend.Attendance.Detection.{detect_on_close-Keeps}
use vellora_backend.Attendance.OnePunch.{IsOnce, latest-none}
use vellora_backend.Attendance.Punches.{resolve_open_log_lem, update_log_lem}
use vellora_backend.Attendance.Newest.{latest-find, find-update_ended, find-own}

-- A log that is closed at a time after it began, and none of whose breaks is running.
pub record IsShut (company id at : ℕ) (d : Db) : Type 0 where
  pub row :
      (l : AttendanceLog) × (find (by_id company id) d.logs ≡ some l)
      × (l.clock_out_utc ≡ some at)
      × (l.clock_in_utc < at)
  pub rested : find (open_break_of company id) d.breaks ≡ none

module _ (refuses : ℕ → ℕ → Bool) (r : Request) (company : ℕ) where
  raise_anomaly-IsShut :
      (id at : ℕ) (log : AttendanceLog) (type : AnomalyType) (delta : ℕ) (d : Db)
      → IsShut company id at d
      → IsShut company id at (raise_anomaly refuses r company log type delta d).1
  unfolding raise_anomaly create_anomaly update_log
  raise_anomaly-IsShut id at log type delta d shut = elim (Bool-cases (is_unmarked log.status)) [
    | inr marked ↦ record { row = rw marked shut.row; rested = rw marked shut.rested }
    | inl unmarked ↦
        let (l, found, left, later) = shut.row in
        rw unmarked (record {
          row = elim (Bool-cases (by_id company log.id l)) [
            | inl hit ↦ (
              record l { status = flagged },
              rw
                  (
                    find-update (by_id company log.id) (by_id company id)
                        (λ x. record x { status = flagged }) d.logs (λ x. refl),
                    found,
                    hit,
                  )
                  refl,
              left,
              later,
            )
            | inr miss ↦ (
              l,
              rw
                  (
                    find-update (by_id company log.id) (by_id company id)
                        (λ x. record x { status = flagged }) d.logs (λ x. refl),
                    found,
                    miss,
                  )
                  refl,
              left,
              later,
            )
          ];
          rested = shut.rested;
        })
  ]

  resolved :
      (dto : PunchDto) (log : AttendanceLog) (d d' : Db)
      → IsOnce d
      → ((i : ℕ) → IsUnique (by_id company i) d.logs)
      → resolve_open_log refuses r company dto d ≡ (ok log, d')
      → find (by_id company log.id) d.logs ≡ some log
  unfolding resolve_open_log find_open_log get_log find_log_by_id
  resolved dto log d d' once ids got = elim (Option-cases dto.log_id) [
    | inr (id, named) ↦ elim (Option-cases (find (by_id company id) d.logs)) [
      | inl unknown ↦ absurd (ground (arith, named, unknown, got))
      | inr (u, found) ↦
          elim (Bool-cases (is_out_of_scope (scoped_store_ids r.user) (some u.store_id))) [
            | inl out ↦ absurd (ground (arith, named, found, out, got))
            | inr reach ↦
                let same : u ≡ log = ground (arith, named, found, reach, got) in
                let own : u.id ≡ id =
                  ground (arith, find-holds (by_id company id) d.logs u found) in
                rw (← same)
                  (subst (λ (j : ℕ). find (by_id company j) d.logs ≡ some u) (sym own) found)
          ]
    ]
    | inl unnamed ↦ elim (Option-cases dto.employee_id) [
      | inl nobody ↦ absurd (ground (arith, unnamed, nobody, got))
      | inr (e, named) ↦
          elim (Option-cases
            (latest (λ (l : AttendanceLog). l.clock_in_utc) (select (open_of company e) d.logs))) [
              | inl none_open ↦ absurd (ground (arith, unnamed, named, none_open, got))
              | inr (u, newest) ↦
                  elim (Bool-cases (is_out_of_scope (scoped_store_ids r.user) (some u.store_id))) [
                    | inl out ↦ absurd (ground (arith, unnamed, named, newest, out, got))
                    | inr reach ↦
                        let same : u ≡ log = ground (arith, unnamed, named, newest, reach, got) in
                        let found =
                          latest-find (λ (l : AttendanceLog). l.clock_in_utc) (open_of company e)
                            d.logs u (once.logs company e) newest in
                        let on = find-holds (open_of company e) d.logs u found in
                        rw (← same) (
                          find-own (by_id company u.id) (open_of company e) d.logs u (ids u.id)
                            found (ground (arith, on)))
                  ]
            ]
    ]
  ]

  close_break-Rested :
      (id at : ℕ) (d d' : Db)
      → IsUnique (open_break_of company id) d.breaks
      → close_break refuses r company
          (latest (λ b. b.start_utc) (select (open_break_of company id) d.breaks))
          at
          d
        ≡ (ok tt, d')
      → (d'.logs ≡ d.logs) × (find (open_break_of company id) d'.breaks ≡ none)
  unfolding close_break end_break update_break
  close_break-Rested id at d d' one went =
      elim (Option-cases (
        latest (λ (b : AttendanceBreak). b.start_utc)
          (select (open_break_of company id) d.breaks))) [
            | inl absent ↦
                let same : d' ≡ d = ground (arith, absent, went) in
                (
                  ap (λ x. x.logs) same,
                  subst (λ (x : Db). find (open_break_of company id) x.breaks ≡ none) (sym same)
                      (find-none-select (open_break_of company id) d.breaks (
                        latest-none (λ (b : AttendanceBreak). b.start_utc)
                          (select (open_break_of company id) d.breaks) absent)),
                )
            | inr (b, newest) ↦ elim (Bool-cases (refuses b.start_utc at)) [
              | inl refused ↦ absurd (ground (arith, newest, refused, went))
              | inr taken ↦
                  let p = break_by_id company b.id in
                  let f : AttendanceBreak → AttendanceBreak = λ x. record x { end_utc = some at } in
                  let same : d' ≡ record d { breaks = update p f d.breaks } =
                    ground (arith, newest, taken, went) in
                  let found =
                    latest-find (λ (x : AttendanceBreak). x.start_utc) (open_break_of company id)
                      d.breaks b one newest in
                  let on = find-holds (open_break_of company id) d.breaks b found in
                  (
                    ap (λ x. x.logs) same,
                    subst (λ (x : Db). find (open_break_of company id) x.breaks ≡ none) (sym same)
                        (find-update_ended p (open_break_of company id) f d.breaks b one found
                          (ground (arith, on)) (λ x. ground arith)),
                  )
            ]
          ]

  rewritten :
      (id : ℕ) (f : AttendanceLog → AttendanceLog) (u : AttendanceLog) (t t' : List AttendanceLog)
      → t' ≡ t
      → find (by_id company id) t ≡ some u
      → by_id company id u ≡ true
      → ((x : AttendanceLog) → by_id company id (f x) ≡ by_id company id x)
      → find (by_id company id) (update (by_id company id) f t') ≡ some (f u)
  rewritten id f u t t' same found hit kept =
      rw (same, find-update (by_id company id) (by_id company id) f t kept, found, hit) refl

  -- `clockOut` that returns a log has closed it at the time of the punch, after it began, and none of its
  -- breaks is running any more, if the ids of the logs are unique and no employee was clocked in twice.
  pub clock_out-IsShut :
      (dto : PunchDto) (l : AttendanceLog) (d : Db)
      → IsOnce d
      → ((i : ℕ) → IsUnique (by_id company i) d.logs)
      → (clock_out refuses r company dto d).0 ≡ ok l
      → (l.clock_out_utc ≡ some (get_or dto.at_utc r.now))
        × (l.status ≡ closed)
        × IsShut company l.id (get_or dto.at_utc r.now) (clock_out refuses r company dto d).1
  unfolding clock_out find_open_break
  clock_out-IsShut dto l d once ids returned =
      elim (outcomes (resolve_open_log refuses r company dto d) d
        (resolve_open_log_lem refuses r company dto d)) [
          | inr (e, threw) ↦ absurd (ground (arith, threw, returned))
          | inl (log, got) ↦
              let at : ℕ = get_or dto.at_utc r.now in
              elim (Bool-cases (leb at log.clock_in_utc)) [
                | inl early ↦ absurd (ground (arith, got, early, returned))
                | inr later ↦
                    let found = resolved dto log d d once ids got in
                    let m =
                      close_break refuses r company
                        (latest (λ (b : AttendanceBreak). b.start_utc)
                          (select (open_break_of company log.id) d.breaks))
                        at d in
                    elim (outcomes m m.1 refl) [
                      | inr (e, threw) ↦ absurd (ground (arith, got, later, threw, returned))
                      | inl (_, shut) ↦
                          let (kept, rested) =
                            close_break-Rested log.id at d m.1 (once.breaks company log.id) shut in
                          let f : AttendanceLog → AttendanceLog =
                            λ x. record x { clock_out_utc = some at; status = closed } in
                          let own : by_id company log.id log ≡ true =
                            find-holds (by_id company log.id) d.logs log found in
                          let d' : Db = (update_log r company log.id f m.1).1 in
                          let written : find (by_id company log.id) d'.logs ≡ some (f log) =
                            rewritten log.id f log d.logs m.1.logs kept found own (λ x. refl) in
                          let put = update_log_lem refuses r company log.id f m.1 in
                          let shut' : IsShut company log.id at d' = record {
                            row = (f log, written, refl, ground (arith, later));
                            rested = rested;
                          } in
                          let after =
                            detect_on_close-Keeps refuses r company (IsShut company log.id at)
                              (λ x type delta. raise_anomaly-IsShut log.id at x type delta) (f log)
                              d' shut' in
                          let n = detect_on_close refuses r company (f log) d' in
                          elim (outcomes n n.1 refl) [
                            | inr (e, threw) ↦
                                absurd
                                  (ground (arith, got, later, shut, put, written, threw, returned))
                            | inl (_, watched) ↦
                                let same : f log ≡ l =
                                  ground
                                    (arith, got, later, shut, put, written, watched, returned) in
                                let left : (clock_out refuses r company dto d).1 ≡ n.1 =
                                  ground (arith, got, later, shut, put, written, watched) in
                                (
                                  ap (λ x. x.clock_out_utc) (sym same),
                                  ap (λ x. x.status) (sym same),
                                  subst (λ (x : Db). IsShut company l.id at x) (sym left)
                                      (subst (λ (x : AttendanceLog). IsShut company x.id at n.1)
                                        same after),
                                )
                          ]
                    ]
              ]
        ]
