-- ===== src/Attendance/Authority.antt =====
-- Whose punch `kioskPunch` of attendance/attendance.service.ts takes, and on what ground.
use vellora_backend.Prelude.{
  ℕ, ◌+◌, ◌*◌, ◌≤◌, ◌≡◌, refl, ◌∙◌, ap, Bool, some, String, arith, Option-cases, inl, inr, is_value,
  ◌==◌, ◌&&◌,
}
use vellora_backend.Nest.{ok, outcomes}
use vellora_backend.Database.{find}
use vellora_backend.Access.Principal.{Request, current_user_id}
use vellora_backend.Devices.Model.{Employee, DeviceRegistration, active_key}
use vellora_backend.Devices.Views.{Presented}
use vellora_backend.Devices.Service.{assert_can_clock_in}
use vellora_backend.Terminals.Qr.{Library}
use vellora_backend.Terminals.Model as Terminals
use vellora_backend.Terminals.Service.{validate_qr_token}
use vellora_backend.Terminals.Carried.{Carries, validate_qr_token-Carries}
use vellora_backend.Devices.Admitted.{IsFromDevice, assert_can_clock_in-IsFromDevice}
use vellora_backend.Attendance.Service
use vellora_backend.Attendance.Batches.{clock_in}
use vellora_backend.Attendance.Clocked.{clock_in-new_log}
use vellora_backend.Terminals.Accepted.{validate_qr_token-IsCurrent}
use vellora_backend.Attendance.Model.{AttendanceLog, Db}
use vellora_backend.Attendance.Queries.{employee_by_user_id}
use vellora_backend.Attendance.Kiosk.{
  KioskPunchDto, Punched, log, on_terminals, on_registrations, act, at_kiosk, own_employee,
  kiosk_punch,
}
use vellora_backend.Attendance.Approvals.{own_employee_lem}

module _ (l : Library) (ttl : ℕ) (trim : String → String) (new_token : String)
    (refuses : ℕ → ℕ → Bool) (r : Request) (company : ℕ) where
  own_found :
      (e : Employee) (d d' : Db)
      → own_employee l ttl trim new_token refuses r company d ≡ (ok (some e), d')
      → (u : ℕ) × (current_user_id r.user ≡ some u)
        × (find (λ x. x.company_id == company && is_value u x.user_id) d.registrations.employees
            ≡ some e)
  unfolding own_employee employee_by_user_id
  own_found e d d' asked = elim (Option-cases (current_user_id r.user)) [
    | inl nobody ↦ absurd (ground (arith, nobody, asked))
    | inr (u, caller) ↦ (u, caller, ground (arith, caller, asked))
  ]

  -- What a punch rests on: a token with the present secret of an active terminal of the company, not
  -- past its time, the employee linked to the caller, and a client that stands for the active
  -- registration of that employee. The punch is the act of this employee at this terminal, on logs,
  -- breaks and shifts that nothing before it changed.
  pub record IsAuthorised (dto : KioskPunchDto) (p : Punched) (d : Db) : Type 0 where
    pub terminal : Terminals.Terminal
    pub person : Employee
    pub device : DeviceRegistration
    pub scanned : Carries l dto.token terminal
    pub ours : find (Terminals.by_id company terminal.id) d.terminals.terminals ≡ some terminal
    pub on : terminal.status ≡ Terminals.active
    pub timely : (at : ℕ) × (terminal.qr_rotated_at ≡ some at) × (r.now ≤ at + ttl * 1000)
    pub caller :
        (user_id : ℕ) × (current_user_id r.user ≡ some user_id)
        × (find
              (λ x. x.company_id == company && is_value user_id x.user_id)
              d.registrations.employees
            ≡ some person)
    pub bound : find (active_key company person.id) d.registrations.registrations ≡ some device
    pub from :
        IsFromDevice company d.registrations
          (record { device_token = dto.device_token; fingerprint = dto.fingerprint })
          device
    pub acted :
        (d' : Db) × (d'.logs ≡ d.logs)
        × (d'.breaks ≡ d.breaks)
        × (d'.shifts ≡ d.shifts)
        × (kiosk_punch l ttl trim new_token refuses r company dto d
            ≡ act l ttl trim new_token refuses r company dto.action person.id terminal d')
    pub clocked :
        dto.action ≡ clock_in
        → (row : AttendanceLog) × (p ≡ log row)
          × (row.employee_id ≡ person.id)
          × (row.store_id ≡ terminal.store_id)
          × (row.terminal_id ≡ some terminal.id)
          × (row.clock_in_utc ≡ r.now)

  clocked_row :
      (e : ℕ) (t : Terminals.Terminal) (p : Punched) (d : Db)
      → (act l ttl trim new_token refuses r company clock_in e t d).0 ≡ ok p
      → (row : AttendanceLog) × (p ≡ log row)
        × (row.employee_id ≡ e)
        × (row.store_id ≡ t.store_id)
        × (row.terminal_id ≡ some t.id)
        × (row.clock_in_utc ≡ r.now)
  unfolding act
  clocked_row e t p d returned =
      let dto = at_kiosk l ttl trim new_token refuses r company e t in
      let m = Service.clock_in refuses r company dto d in
      elim (outcomes m m.1 refl) [
        | inr (x, threw) ↦ absurd (ground (arith, threw, returned))
        | inl (row, made) ↦
            let (shift, is) = clock_in-new_log refuses r company dto row d (ap (λ x. x.0) made) in
            (
              row,
              ground (arith, made, returned),
              ap (λ x. x.employee_id) is,
              ap (λ x. x.store_id) is,
              ap (λ x. x.terminal_id) is,
              ap (λ x. x.clock_in_utc) is,
            )
      ]

  -- A kiosk punch that is taken, of whatever action, rests on a token that carries the present secret of
  -- an active terminal of the company, set at most the lifetime of a code ago, and is the act of the
  -- employee linked to the caller at that terminal, whose client presents the token of its active
  -- registration or none and, where the company requires it, the fingerprint of the registration. For a
  -- clock-in the row is of that employee, that terminal and its store, at the time of the request.
  pub kiosk_punch-IsAuthorised :
      (dto : KioskPunchDto) (p : Punched) (d : Db)
      → (kiosk_punch l ttl trim new_token refuses r company dto d).0 ≡ ok p
      → IsAuthorised dto p d
  unfolding kiosk_punch
  kiosk_punch-IsAuthorised dto p d returned =
      let valid = validate_qr_token l ttl r company dto.token in
      elim (outcomes (valid d.terminals) (valid d.terminals).1 refl) [
        | inr (e, threw) ↦ absurd (ground (arith, threw, returned))
        | inl (t, shown) ↦
            let (found, on, timely, unchanged) =
              validate_qr_token-IsCurrent l ttl r company dto.token t d.terminals
                (ap (λ x. x.0) shown) in
            let d₁ : Db = (on_terminals valid d).1 in
            let shown' : on_terminals valid d ≡ (ok t, d₁) = ground (arith, shown) in
            elim (outcomes (own_employee l ttl trim new_token refuses r company d₁) d₁
              (own_employee_lem l ttl trim new_token refuses r company d₁)) [
                | inr (e, threw) ↦ absurd (ground (arith, shown', threw, returned))
                | inl (o, asked) ↦ elim (Option-cases o) [
                  | inl nobody ↦ absurd (ground (arith, shown', asked, nobody, returned))
                  | inr (w, me) ↦
                      let (u, caller, mine) = own_found w d₁ d₁ (asked ∙ ap (λ x. (ok x, d₁)) me) in
                      let given : Presented = record {
                        device_token = dto.device_token;
                        fingerprint = dto.fingerprint;
                      } in
                      let gate = assert_can_clock_in r company trim new_token w.id given in
                      elim (outcomes (gate d.registrations) (gate d.registrations).1 refl) [
                        | inr (e, threw) ↦
                            absurd (ground (arith, shown', asked, me, threw, returned))
                        | inl (i, passed) ↦
                            let (g, bound, _, from) =
                              (assert_can_clock_in-IsFromDevice r company trim new_token w.id i
                                  given d.registrations).0
                                (ap (λ x. x.0) passed) in
                            let d₂ : Db = (on_registrations gate d₁).1 in
                            let runs : kiosk_punch l ttl trim new_token refuses r company dto d
                                ≡ act l ttl trim new_token refuses r company dto.action w.id t d₂ =
                              ground (arith, shown', asked, me, passed) in
                            record {
                              terminal = t;
                              person = w;
                              device = g;
                              scanned =
                                  validate_qr_token-Carries l ttl r company dto.token t d.terminals
                                    (ap (λ x. x.0) shown);
                              ours = found;
                              on = on;
                              timely = timely;
                              caller = (u, caller, mine);
                              bound = bound;
                              from = from;
                              acted = (d₂, refl, refl, refl, runs);
                              clocked = λ is.
                                  clocked_row w.id t p d₂ (ground (arith, runs, is, returned));
                            }
                      ]
                ]
              ]
      ]
