-- ===== src/Terminals/Service.antt =====
-- devices/devices.service.ts, handler by handler. The lists are left out.
use vellora_backend.Prelude.{
  ℕ, ◌+◌, ◌*◌, Bool, true, not, ◌&&◌, ◌||◌, Option, none, some, String, [], ◌∷◌, ◌++◌, ◌==◌, ltb,
  if◌then◌else◌, is_some,
}
use mathlib.Core.Option.{get_or}
use vellora_backend.Nest.{
  Action, Done, ok, conflict, forbidden, not_found, database_error, internal_error, pure, throw,
  gets, or_throw, throw_if, ◌>>=◌, ◌>>◌,
}
use vellora_backend.Database.{find}
use vellora_backend.Access.Principal.{Request, scoped_store_ids, current_user_id, is_out_of_scope}
use vellora_backend.Terminals.Qr.{Text, Library, colon, split_colon, same_text, is_empty}
use vellora_backend.Terminals.Model.{
  Terminal, Device, Db, TerminalStatus, active, inactive, DeviceStatus, registered, reset,
  is_active, is_inactive, find_terminal, find_terminal_by_store, insert_terminal, update_terminal,
  delete_terminal_row, find_device, insert_device, update_device, employee_by_id,
}

pub record RegisterDeviceDto : Type 0 where
  pub employee_id : ℕ
  pub label : String
  pub platform : Option String
  pub bound_hint : Option String

pub record CreateTerminalDto : Type 0 where
  pub store_id : ℕ
  pub label : String

-- What the kiosk is given to show.
pub record QrView : Type 0 where
  pub terminal_id : ℕ
  pub store_id : ℕ
  pub payload : Text
  pub rotated_at : ℕ
  pub expires_at : ℕ
  pub ttl_seconds : ℕ

-- `Date.now() - rotatedAt > ttl`
abbrev pub is_older : ℕ → ℕ → ℕ → Bool
is_older ttl rotated_at now = ltb (rotated_at + ttl) now

-- `!qrSecret || !qrRotatedAt || …`
abbrev pub is_stale : ℕ → ℕ → Terminal → Bool
is_stale ttl now t = elim t.qr_secret [
  | none ↦ true
  | some s ↦ is_empty s || elim t.qr_rotated_at [ none ↦ true | some at ↦ is_older ttl at now ]
]

module _ (l : Library) (qr_ttl_seconds : ℕ) (r : Request) (company : ℕ) where
  abbrev pub ttl_ms : ℕ
  ttl_ms = qr_ttl_seconds * 1000

  unfoldable pub assert_store_in_scope : Option ℕ → Action Db Done
  assert_store_in_scope store =
      throw_if (is_out_of_scope (scoped_store_ids r.user) store)
        (forbidden "That store is outside your scope.")

  -- The hint that is drawn when the client sends none is an argument.
  unfoldable pub register : String → RegisterDeviceDto → Action Db Device
  unfolding employee_by_id assert_store_in_scope insert_device
  register hint dto = do
    employee ←
        or_throw (← employee_by_id r company dto.employee_id) (not_found "Employee not found.")
    assert_store_in_scope employee.primary_store_id
    insert_device r company λ id. record {
      id = id;
      company_id = company;
      employee_id = dto.employee_id;
      label = dto.label;
      platform = dto.platform;
      status = registered;
      bound_hint = some (get_or dto.bound_hint hint);
      last_seen = some r.now;
      created_at = r.now;
    }

  abbrev store_of_device : Device → Db → Option ℕ
  store_of_device v d =
      elim (find (λ e. e.company_id == company && e.id == v.employee_id) d.employees) [
        | none ↦ none
        | some e ↦ e.primary_store_id
      ]

  unfoldable pub reset_device : ℕ → Action Db (Option Device)
  unfolding find_device assert_store_in_scope update_device
  reset_device id = do
    device ← or_throw (← find_device r company id) (not_found "Device not found.")
    home ← gets (store_of_device device)
    assert_store_in_scope home
    update_device r company id (λ v. record v { status = reset; bound_hint = none })

  unfoldable pub block_device : ℕ → Action Db (Option Device)
  unfolding find_device assert_store_in_scope update_device
  block_device id = do
    device ← or_throw (← find_device r company id) (not_found "Device not found.")
    home ← gets (store_of_device device)
    assert_store_in_scope home
    update_device r company id (λ v. record v { status = DeviceStatus.blocked })

  unfoldable pub get_terminal : ℕ → Action Db Terminal
  unfolding find_terminal assert_store_in_scope
  get_terminal id = do
    terminal ← or_throw (← find_terminal r company id) (not_found "Terminal not found.")
    assert_store_in_scope (some terminal.store_id)
    pure terminal

  unfoldable pub create_terminal : CreateTerminalDto → Action Db Terminal
  unfolding assert_store_in_scope find_terminal_by_store insert_terminal
  create_terminal dto = do
    assert_store_in_scope (some dto.store_id)
    existing ← find_terminal_by_store r company dto.store_id
    throw_if (is_some existing) (conflict "This store already has a terminal.")
    insert_terminal r company λ id. record {
      id = id;
      company_id = company;
      store_id = dto.store_id;
      label = dto.label;
      status = TerminalStatus.pending;
      qr_secret = none;
      qr_rotated_at = none;
      last_seen = none;
      deactivated_by = none;
      deactivated_at = none;
    }

  -- What `authorizeTerminal` and `reactivateTerminal` write.
  abbrev pub switched_on : ℕ → Terminal → Terminal
  switched_on n t = record t {
    status = active;
    qr_secret = some (l.secret n);
    qr_rotated_at = some r.now;
    deactivated_by = none;
    deactivated_at = none;
  }

  -- The secrets are drawn one after another, as the ids of rows are.
  abbrev pub draws : Action Db ℕ
  draws d = (ok d.drawn, record d { drawn = d.drawn + 1 })

  unfoldable pub authorize_terminal : ℕ → Action Db (Option Terminal)
  unfolding get_terminal update_terminal
  authorize_terminal id = do
    get_terminal id
    n ← draws
    update_terminal r company id (switched_on n)

  unfoldable pub block_terminal : ℕ → Action Db (Option Terminal)
  unfolding get_terminal update_terminal
  block_terminal id = do
    get_terminal id
    update_terminal r company id
        (λ t. record t { status = TerminalStatus.blocked; qr_secret = none })

  unfoldable pub deactivate_terminal : ℕ → Action Db (Option Terminal)
  unfolding get_terminal update_terminal
  deactivate_terminal id = do
    get_terminal id
    update_terminal r company id λ t. record t {
      status = inactive;
      qr_secret = none;
      deactivated_by = current_user_id r.user;
      deactivated_at = some r.now;
    }

  unfoldable pub reactivate_terminal : ℕ → Action Db (Option Terminal)
  unfolding get_terminal update_terminal
  reactivate_terminal id = do
    terminal ← get_terminal id
    throw_if (not (is_inactive terminal.status))
        (conflict "Only an inactive terminal can be reactivated.")
    n ← draws
    update_terminal r company id (switched_on n)

  unfoldable pub delete_terminal : ℕ → Action Db ℕ
  unfolding get_terminal delete_terminal_row
  delete_terminal id = do get_terminal id; delete_terminal_row r company id; pure id

  abbrev pub rotated : ℕ → Terminal → Terminal
  rotated n t = record t {
    qr_secret = some (l.secret n);
    qr_rotated_at = some r.now;
    last_seen = some r.now;
  }

  -- The rotation of a stale secret; a terminal that is up to date is kept.
  unfoldable pub rotate : ℕ → Terminal → Action Db Terminal
  unfolding update_terminal
  rotate id terminal =
      if is_stale ttl_ms r.now terminal
      then (do
        n ← draws
        updated ← update_terminal r company id (rotated n)
        or_throw updated internal_error)
      else pure terminal

  abbrev pub payload_of : Terminal → Text
  payload_of t = l.to_base64url (l.id_text t.id ++ colon ∷ get_or t.qr_secret [])

  abbrev pub view_of : Terminal → QrView
  view_of t = record {
    terminal_id = t.id;
    store_id = t.store_id;
    payload = payload_of t;
    rotated_at = get_or t.qr_rotated_at r.now;
    expires_at = get_or t.qr_rotated_at r.now + ttl_ms;
    ttl_seconds = qr_ttl_seconds;
  }

  unfoldable pub get_qr : ℕ → Action Db QrView
  unfolding get_terminal rotate
  get_qr id = do
    found ← get_terminal id
    throw_if (not (is_active found.status)) (forbidden "Terminal is not authorized.")
    terminal ← rotate id found
    pure (view_of terminal)

  -- `where: eq(terminals.id, terminalId)` with a text: one that is no uuid is refused.
  unfoldable pub find_terminal_by_text : Text → Action Db (Option Terminal)
  unfolding find_terminal
  find_terminal_by_text t = elim (l.id_of_text t) [
    | none ↦ throw database_error
    | some id ↦ find_terminal r company id
  ]

  -- `!terminal.qrSecret || !secret || terminal.qrSecret !== secret`
  abbrev pub is_wrong_secret : Option Text → Text → Bool
  is_wrong_secret none s = true
  is_wrong_secret (some q) s = is_empty q || is_empty s || not (same_text q s)

  abbrev pub is_expired : Option ℕ → Bool
  is_expired none = true
  is_expired (some at) = is_older ttl_ms at r.now

  unfoldable pub validate_qr_token : Text → Action Db Terminal
  unfolding find_terminal_by_text split_colon
  validate_qr_token token = do
    decoded ← or_throw (l.from_base64url token) (forbidden "Invalid QR code.")
    parts ← or_throw (split_colon decoded) (forbidden "Invalid QR code.")
    found ← find_terminal_by_text parts.0
    terminal ← or_throw found (not_found "Terminal not found.")
    throw_if (not (is_active terminal.status)) (forbidden "This terminal is not active.")
    throw_if (is_wrong_secret terminal.qr_secret parts.1)
        (forbidden "This QR code is no longer valid. Please scan again.")
    throw_if (is_expired terminal.qr_rotated_at)
        (forbidden "This QR code has expired. Please scan again.")
    pure terminal
