-- ===== src/Terminals/Model.antt =====
-- database/schema/terminals.ts, database/schema/devices.ts and devices/devices.repository.ts. Times are
-- milliseconds. The search for a label in the list of devices is left out.
use vellora_backend.Prelude.{
  ℕ, suc, Bool, true, false, ◌&&◌, Option, String, List, ◌∷◌, ◌==◌, if◌then◌else◌, is_some,
}
use vellora_backend.Nest.{Action, Done, ok, err, database_error, gets, modify}
use vellora_backend.Database.{find, update, delete}
use vellora_backend.Access.Principal.{Request}
use vellora_backend.Devices.Model.{Employee}
use vellora_backend.Terminals.Qr.{Text}

pub data TerminalStatus : Type 0 where
  pending active inactive blocked : TerminalStatus

pub data DeviceStatus : Type 0 where
  pending registered reset blocked : DeviceStatus

pub record Terminal : Type 0 where
  pub id : ℕ
  pub company_id : ℕ
  pub store_id : ℕ
  pub label : String
  pub status : TerminalStatus
  pub qr_secret : Option Text
  pub qr_rotated_at : Option ℕ
  pub last_seen : Option ℕ
  pub deactivated_by : Option ℕ
  pub deactivated_at : Option ℕ

pub record Device : Type 0 where
  pub id : ℕ
  pub company_id : ℕ
  pub employee_id : ℕ
  pub label : String
  pub platform : Option String
  pub status : DeviceStatus
  pub bound_hint : Option String
  pub last_seen : Option ℕ
  pub created_at : ℕ

pub record Db : Type 0 where
  pub terminals : List Terminal
  pub devices : List Device
  pub employees : List Employee
  pub drawn : ℕ

abbrev pub is_active : TerminalStatus → Bool
is_active active = true
is_active _ = false

abbrev pub is_inactive : TerminalStatus → Bool
is_inactive inactive = true
is_inactive _ = false

abbrev pub same_device_status : DeviceStatus → DeviceStatus → Bool
same_device_status DeviceStatus.pending DeviceStatus.pending = true
same_device_status registered registered = true
same_device_status reset reset = true
same_device_status DeviceStatus.blocked DeviceStatus.blocked = true
same_device_status _ _ = false

abbrev pub by_id : ℕ → ℕ → Terminal → Bool
by_id company id t = t.company_id == company && t.id == id

abbrev pub of_store : ℕ → ℕ → Terminal → Bool
of_store company store_id t = t.company_id == company && t.store_id == store_id

-- The key of the unique index, which row-level security does not narrow.
abbrev pub store_key : ℕ → Terminal → Bool
store_key store_id t = t.store_id == store_id

abbrev pub device_by_id : ℕ → ℕ → Device → Bool
device_by_id company id v = v.company_id == company && v.id == id

module _ (r : Request) (company : ℕ) where
  unfoldable pub find_terminal : ℕ → Action Db (Option Terminal)
  find_terminal id = gets λ d. find (by_id company id) d.terminals

  unfoldable pub find_terminal_by_store : ℕ → Action Db (Option Terminal)
  find_terminal_by_store store_id = gets λ d. find (of_store company store_id) d.terminals

  -- A second terminal of a store is refused by the index.
  unfoldable pub insert_terminal : (ℕ → Terminal) → Action Db Terminal
  insert_terminal row d =
      let t : Terminal = row (r.uuid d.drawn) in
      if is_some (find (store_key t.store_id) d.terminals)
      then (err database_error, d)
      else (ok t, record d { terminals = t ∷ d.terminals; drawn = suc d.drawn })

  unfoldable pub update_terminal : ℕ → (Terminal → Terminal) → Action Db (Option Terminal)
  update_terminal id f d =
      let t = update (by_id company id) f d.terminals in
      (ok (find (by_id company id) t), record d { terminals = t })

  unfoldable pub delete_terminal_row : ℕ → Action Db Done
  delete_terminal_row id =
      modify λ d. record d { terminals = delete (by_id company id) d.terminals }

  unfoldable pub find_device : ℕ → Action Db (Option Device)
  find_device id = gets λ d. find (device_by_id company id) d.devices

  unfoldable pub insert_device : (ℕ → Device) → Action Db Device
  insert_device row d =
      let v : Device = row (r.uuid d.drawn) in
      (ok v, record d { devices = v ∷ d.devices; drawn = suc d.drawn })

  unfoldable pub update_device : ℕ → (Device → Device) → Action Db (Option Device)
  update_device id f d =
      let t = update (device_by_id company id) f d.devices in
      (ok (find (device_by_id company id) t), record d { devices = t })

  unfoldable pub employee_by_id : ℕ → Action Db (Option Employee)
  employee_by_id id = gets λ d. find (λ e. e.company_id == company && e.id == id) d.employees
