-- ===== src/Devices/Views.antt =====
-- The bodies and answers of devices/device-registration.service.ts, and its tests of texts.
use vellora_backend.Prelude.{
  ℕ, Bool, true, false, not, Option, none, some, String, str_eq, if◌then◌else◌,
}
use Prim.Native.String.{◌++◌ as str_append}
use vellora_backend.Devices.Model.{DeviceRegistration, Status}

pub record RegisterMyDeviceDto : Type 0 where
  pub label : Option String
  pub platform : Option String
  pub fingerprint : Option String
  pub device_token : Option String

pub record AdminRegisterDto : Type 0 where
  pub employee_id : ℕ
  pub label : Option String
  pub platform : Option String

-- What a client presents when it clocks in.
pub record Presented : Type 0 where
  pub device_token : Option String
  pub fingerprint : Option String

pub record PublicRegistration : Type 0 where
  pub id : ℕ
  pub label : Option String
  pub platform : Option String
  pub status : Status
  pub registered_at : ℕ
  pub last_seen_at : Option ℕ

pub record MyDeviceStatus : Type 0 where
  pub is_employee : Bool
  pub employee_id : Option ℕ
  pub registered : Bool
  pub require_fingerprint : Bool
  pub registration : Option PublicRegistration
  pub device_token : Option String

abbrev pub public_view : DeviceRegistration → PublicRegistration
public_view g = record {
  id = g.id;
  label = g.label;
  platform = g.platform;
  status = g.status;
  registered_at = g.registered_at;
  last_seen_at = g.last_seen_at;
}

-- A text that is missing or empty is falsy.
abbrev pub is_given : Option String → Bool
is_given none = false
is_given (some s) = not (str_eq s "")

-- `x || y` on texts
abbrev pub or_text : String → String → String
or_text s t = if str_eq s "" then t else s

abbrev pub default_label : Option String → String
default_label none = "My device"
default_label (some p) = if str_eq p "" then "My device" else str_append p " device"

abbrev pub same_text : Option String → Option String → Bool
same_text none none = true
same_text (some a) (some b) = str_eq a b
same_text _ _ = false
