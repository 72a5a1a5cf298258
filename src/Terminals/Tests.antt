-- ===== src/Terminals/Tests.antt =====
-- The QR codes of devices/devices.service.ts on small inputs.
use vellora_backend.Prelude.{
  ℕ, ◌+◌, ◌-◌, ◌*◌, ◌≤◌, ◌≡◌, ◌≢◌, refl, true, Option, none, some, [], ◌∷◌, arith, ap,
}
use vellora_backend.Nest.{ok}
use vellora_backend.Database.{find}
use vellora_backend.Access.Principal.{AuthenticatedUser, owner, Request}
use vellora_backend.Terminals.Qr.{Text, Library, IsSound}
use vellora_backend.Terminals.Model.{Terminal, Db, active, by_id}
use vellora_backend.Terminals.Service.{get_qr, validate_qr_token, block_terminal}
use vellora_backend.Terminals.Codes.{validate_qr_token-get_qr}
use vellora_backend.Terminals.Accepted.{validate_qr_token-IsCurrent}
use vellora_backend.Terminals.Stopped.{block, stop, validate_qr_token-stop}

abbrev id_of_text : Text → Option ℕ
id_of_text (c ∷ []) = some (c - 59)
id_of_text _ = none

-- A codec that changes nothing, and ids as one code point.
abbrev pub plain : Library
plain = record {
  to_base64url = λ t. t;
  from_base64url = λ t. some t;
  id_text = λ i. (i + 59) ∷ [];
  id_of_text = id_of_text;
  secret = λ n. (n + 100) ∷ [];
}

plain-IsSound : IsSound plain
plain-IsSound = record {
  decodes = λ t. refl;
  reads_id = λ i. ap some (omega arith);
  no_colon = λ i. ground arith;
  not_empty = λ n. (n + 100, [], refl);
}

abbrev pub boss : AuthenticatedUser
boss = record {
  supabase_uid = 90;
  user_id = 5;
  memberships = [];
  company_id = some 1;
  role = some owner;
  scope_type = none;
  scope_ids = none;
  platform_role = none;
}

abbrev pub at_time : ℕ → Request
at_time now = record { user = some boss; now = now; uuid = λ n. 70 + n }

abbrev pub kiosk : Terminal
kiosk = record {
  id = 3;
  company_id = 1;
  store_id = 2;
  label = "Door";
  status = active;
  qr_secret = some (107 ∷ []);
  qr_rotated_at = some 1000;
  last_seen = none;
  deactivated_by = none;
  deactivated_at = none;
}

abbrev other_kiosk : Terminal
other_kiosk = record kiosk { id = 4; store_id = 6 }

abbrev pub shop : Db
shop = record { terminals = kiosk ∷ other_kiosk ∷ []; devices = []; employees = []; drawn = 0 }

shows :
    (get_qr plain 60 (at_time 2000) 1 3 shop).0
    ≡ ok (record {
      terminal_id = 3;
      store_id = 2;
      payload = 62 ∷ 58 ∷ 107 ∷ [];
      rotated_at = 1000;
      expires_at = 61000;
      ttl_seconds = 60;
    })
unfolding get_qr
shows = refl

validate_qr_token-get_qr_example :
    (t : Terminal) × (validate_qr_token plain 60
        (at_time 61000)
        1
        (62 ∷ 58 ∷ 107 ∷ [])
        (get_qr plain 60 (at_time 2000) 1 3 shop).1
      ≡ (ok t, (get_qr plain 60 (at_time 2000) 1 3 shop).1))
    × (t.id ≡ 3)
    × (t.store_id ≡ 2)
validate_qr_token-get_qr_example =
    validate_qr_token-get_qr plain plain-IsSound 60 1 (at_time 2000) (at_time 61000) 3
      (record {
        terminal_id = 3;
        store_id = 2;
        payload = 62 ∷ 58 ∷ 107 ∷ [];
        rotated_at = 1000;
        expires_at = 61000;
        ttl_seconds = 60;
      })
      shop shows (omega arith)

accepts : (validate_qr_token plain 60 (at_time 2000) 1 (62 ∷ 58 ∷ 107 ∷ []) shop).0 ≡ ok kiosk
unfolding validate_qr_token
accepts = refl

validate_qr_token-IsCurrent_example :
    (find (by_id 1 3) shop.terminals ≡ some kiosk)
    × (kiosk.status ≡ active)
    × ((at : ℕ) × (kiosk.qr_rotated_at ≡ some at) × (2000 ≤ at + 60 * 1000))
    × ((validate_qr_token plain 60 (at_time 2000) 1 (62 ∷ 58 ∷ 107 ∷ []) shop).1 ≡ shop)
validate_qr_token-IsCurrent_example =
    validate_qr_token-IsCurrent plain 60 (at_time 2000) 1 (62 ∷ 58 ∷ 107 ∷ []) kiosk shop accepts

blocks : (stop plain 60 (at_time 1500) 1 block 3 shop).0 ≡ true
unfolding block_terminal
blocks = refl

abbrev blocked : Db
blocked = (stop plain 60 (at_time 1500) 1 block 3 shop).1

still_accepts :
    (validate_qr_token plain 60 (at_time 2000) 1 (63 ∷ 58 ∷ 107 ∷ []) blocked).0 ≡ ok other_kiosk
unfolding block_terminal validate_qr_token
still_accepts = refl

validate_qr_token-stop_example : other_kiosk.id ≢ 3
validate_qr_token-stop_example =
    validate_qr_token-stop plain 60 (at_time 1500) 1 3 shop block (at_time 2000)
      (63 ∷ 58 ∷ 107 ∷ []) other_kiosk blocks still_accepts
