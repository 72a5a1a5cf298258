-- ===== src/Attendance/Approvals.antt =====
-- The kiosk and the approved corrections of attendance/attendance.service.ts keep what the punches keep.
use vellora_backend.Prelude.{
  not_empty, ℕ, ◌≡◌, refl, sym, ◌∙◌, Bool, Option, none, some, String, arith, Bool-cases,
  Option-cases, inl, inr,
}
use mathlib.Core.Path.{subst}
use vellora_backend.Nest.{Result, ok, err, outcomes}
use vellora_backend.Database.{find}
use vellora_backend.Access.Principal.{Request}
use vellora_backend.Devices.Service.{assert_can_clock_in}
use vellora_backend.Terminals.Qr.{Library}
use vellora_backend.Terminals.Model.{Terminal}
use vellora_backend.Terminals.Service.{validate_qr_token}
use vellora_backend.Attendance.Model.{
  AttendanceLog, Db, Field, clock_in_utc, clock_out_utc, status, requested, corrected,
  same_correction_status, correction_by_id, LogStatus,
}
use vellora_backend.Attendance.Queries.{
  employee_by_user_id, update_log, find_correction, update_correction,
}
use vellora_backend.Attendance.Service.{get_log, audit}
use vellora_backend.Attendance.Batches.{Kind, clock_in, clock_out, break_start, break_end}
use vellora_backend.Attendance.Kiosk.{
  KioskPunchDto, on_terminals, on_registrations, own_employee, own_punch, act, kiosk_punch,
  at_kiosk,
}
use vellora_backend.Attendance.Corrections.{
  patch_of, patch_with, apply_correction, approve_correction, status_of,
}
use vellora_backend.Attendance.OnePunch.{IsOnce, KeepsClosed, moved, elsewhere, update_log-IsOnce}
use vellora_backend.Attendance.Punches.{
  clock_in-IsOnce, clock_out-IsOnce, break_start-IsOnce, break_end-IsOnce, get_log_lem,
}

module _ (l : Library) (ttl : ℕ) (trim : String → String) (new_token : String)
    (refuses : ℕ → ℕ → Bool) (r : Request) (company : ℕ) where
  act-IsOnce :
      (k : Kind) (e : ℕ) (t : Terminal) (d : Db)
      → IsOnce d
      → IsOnce (act l ttl trim new_token refuses r company k e t d).1
  unfolding act
  act-IsOnce clock_in e t d once = moved (ground arith) (
      clock_in-IsOnce refuses r company (at_kiosk l ttl trim new_token refuses r company e t) d
        once)
  act-IsOnce clock_out e t d once = moved (ground arith) (
      clock_out-IsOnce refuses r company (own_punch l ttl trim new_token refuses r company e) d
        once)
  act-IsOnce break_start e t d once = moved (ground arith) (
      break_start-IsOnce refuses r company (own_punch l ttl trim new_token refuses r company e) d
        once)
  act-IsOnce break_end e t d once = moved (ground arith) (
      break_end-IsOnce refuses r company (own_punch l ttl trim new_token refuses r company e) d
        once)

  pub own_employee_lem : (d : Db) → (own_employee l ttl trim new_token refuses r company d).1 ≡ d
  unfolding own_employee employee_by_user_id
  own_employee_lem d = ground arith

  pub kiosk_punch-IsOnce :
      (dto : KioskPunchDto) (d : Db)
      → IsOnce d
      → IsOnce (kiosk_punch l ttl trim new_token refuses r company dto d).1
  unfolding kiosk_punch
  kiosk_punch-IsOnce dto d once =
      let valid = validate_qr_token l ttl r company dto.token in
      let d₁ : Db = (on_terminals valid d).1 in
      let once₁ : IsOnce d₁ = elsewhere d d₁ refl refl once in
      elim (outcomes (on_terminals valid d) d₁ refl) [
        | inr (e, threw) ↦ moved (ground (arith, threw)) once₁
        | inl (t, shown) ↦
            elim (outcomes (own_employee l ttl trim new_token refuses r company d₁) d₁
              (own_employee_lem d₁)) [
                | inr (e, threw) ↦ moved (ground (arith, shown, threw)) once₁
                | inl (o, asked) ↦ elim (Option-cases o) [
                  | inl nobody ↦ moved (ground (arith, shown, asked, nobody)) once₁
                  | inr (w, me) ↦
                      let gate = assert_can_clock_in r company trim new_token w.id (record {
                        device_token = dto.device_token;
                        fingerprint = dto.fingerprint;
                      }) in
                      let d₂ : Db = (on_registrations gate d₁).1 in
                      let once₂ : IsOnce d₂ = elsewhere d₁ d₂ refl refl once₁ in
                      elim (outcomes (on_registrations gate d₁) d₂ refl) [
                        | inr (e, threw) ↦ moved (ground (arith, shown, asked, me, threw)) once₂
                        | inl (_, passed) ↦
                            moved (ground (arith, shown, asked, me, passed))
                              (act-IsOnce dto.action w.id t d₂ once₂)
                      ]
                ]
              ]
      ]

ok_eq : {A : Type 0} {v w : A} → ok v ≡ ok w → v ≡ w
ok_eq e = cc

module _ (iso : ℕ → String) (parse_date : String → Option ℕ) (refuses : ℕ → ℕ → Bool) (r : Request)
    (company : ℕ) where
  sets_in :
      (at : ℕ) (text : String)
      → parse_date text ≡ some at
      → patch_with iso parse_date refuses r company clock_in_utc (some text)
        ≡ ok (λ l. record l { clock_in_utc = at; status = corrected })
  sets_in at text read = ground (arith, read)

  sets_out :
      (at : ℕ) (text : String)
      → parse_date text ≡ some at
      → patch_with iso parse_date refuses r company clock_out_utc (some text)
        ≡ ok (λ l. record l { clock_out_utc = some at; status = corrected })
  sets_out at text read = ground (arith, read)

  sets_status :
      (s : LogStatus) (text : String)
      → status_of text ≡ some s
      → patch_with iso parse_date refuses r company status (some text)
        ≡ ok (λ l. record l { status = s })
  sets_status s text read = ground (arith, read)

  patch_with-KeepsClosed :
      (field : Field) (value : Option String) (f : AttendanceLog → AttendanceLog)
      → patch_with iso parse_date refuses r company field value ≡ ok f
      → KeepsClosed f
  patch_with-KeepsClosed field none f e = subst KeepsClosed (ok_eq e) (λ l c w on. on)
  patch_with-KeepsClosed clock_in_utc (some text) f e = elim (Option-cases (parse_date text)) [
    | inl garbled ↦ absurd (ground (arith, garbled, e))
    | inr (at, read) ↦ subst KeepsClosed (ok_eq (sym (sets_in at text read) ∙ e)) (λ l c w on. on)
  ]
  patch_with-KeepsClosed clock_out_utc (some text) f e = elim (Option-cases (parse_date text)) [
    | inl garbled ↦ absurd (ground (arith, garbled, e))
    | inr (at, read) ↦
        subst KeepsClosed (ok_eq (sym (sets_out at text read) ∙ e)) (λ l c w on. ground (arith, on))
  ]
  patch_with-KeepsClosed status (some text) f e = elim (Option-cases (status_of text)) [
    | inl unknown ↦ absurd (ground (arith, unknown, e))
    | inr (s, read) ↦ subst KeepsClosed (ok_eq (sym (sets_status s text read) ∙ e)) (λ l c w on. on)
  ]

  apply_correction-IsOnce :
      (log : AttendanceLog) (field : Field) (value : Option String) (d : Db)
      → IsOnce d
      → IsOnce (apply_correction iso parse_date refuses r company log field value d).1
  unfolding apply_correction update_log
  apply_correction-IsOnce log field value d once =
      by_patch (patch_of iso parse_date refuses r company field value) refl
    where
      by_patch :
          (res : Result (AttendanceLog → AttendanceLog))
          → patch_of iso parse_date refuses r company field value ≡ res
          → IsOnce (apply_correction iso parse_date refuses r company log field value d).1
      by_patch (err e) is = moved (ground (arith, is)) once
      by_patch (ok f) is = moved (ground (arith, is)) (
          update_log-IsOnce r company log.id f d
            (patch_with-KeepsClosed field (not_empty value) f is) once)

  pub approve_correction-IsOnce :
      (id : ℕ) (d : Db)
      → IsOnce d
      → IsOnce (approve_correction iso parse_date refuses r company id d).1
  unfolding approve_correction find_correction update_correction audit
  approve_correction-IsOnce id d once =
      elim (Option-cases (find (correction_by_id company id) d.corrections)) [
        | inl unknown ↦ moved (ground (arith, unknown)) once
        | inr (c, found) ↦ elim (Bool-cases (same_correction_status c.status requested)) [
          | inr done ↦ moved (ground (arith, found, done)) once
          | inl waiting ↦
              elim (outcomes (get_log refuses r company c.log_id d) d
                (get_log_lem refuses r company c.log_id d)) [
                  | inr (e, threw) ↦ moved (ground (arith, found, waiting, threw)) once
                  | inl (log, got) ↦
                      let m =
                        apply_correction iso parse_date refuses r company log c.field c.new_value
                          d in
                      let once' = apply_correction-IsOnce log c.field c.new_value d once in
                      elim (outcomes m m.1 refl) [
                        | inr (e, threw) ↦ moved (ground (arith, found, waiting, got, threw)) once'
                        | inl (_, patched) ↦
                            elsewhere m.1 _ (ground (arith, found, waiting, got, patched))
                              (ground (arith, found, waiting, got, patched)) once'
                      ]
                ]
        ]
      ]
