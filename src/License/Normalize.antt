-- ===== src/License/Normalize.antt =====
-- The readers of JSON answers in apps/console/src-tauri/generic-license-tauri/src/client.rs.
use tunnara.Prelude.{
  ℕ, ◌-◌, ◌%◌, ◌^◌, Bool, false, not, Option, none, some, String, List, [], ◌∷◌, if◌then◌else◌, ltb,
  leb, unwrap_or, or_else, and_then, map_option, any, str_eq,
}
use tunnara.Prelude.Int.{ℤ, pos, negsuc, eqb_ℤ}
use tunnara.Prelude.Text.{trim}
use tunnara.License.Models.{DateTime, DeviceRecord, LicenseRecord}
use tunnara.License.Json.{bool, number, string, Json, Formats, as_str, as_u64, get_first}

-- `as u32`
abbrev pub as_u32 : ℕ → ℕ
as_u32 n = n % 2 ^ 32

-- `as i32` of an integer: its lowest 32 bits, as a signed number.
abbrev pub low_word : ℤ → ℕ
low_word (pos n) = n % 2 ^ 32
low_word (negsuc n) = 2 ^ 32 - 1 - n % 2 ^ 32

abbrev pub signed_word : ℕ → ℤ
signed_word m = if ltb m (2 ^ 31) then pos m else negsuc (2 ^ 32 - 1 - m)

abbrev pub as_i32 : ℤ → ℤ
as_i32 n = signed_word (low_word n)

abbrev truthy : List String
truthy = "1" ∷ "TRUE" ∷ "T" ∷ "Y" ∷ "YES" ∷ "S" ∷ "SIM" ∷ "ALLOWED" ∷ []

abbrev pub no_device : DeviceRecord
no_device = record {
  id = none;
  device_key = none;
  device_name = none;
  station_name = none;
  hostname = none;
  computer_name = none;
  serial_number = none;
  machine_guid = none;
  bios_serial = none;
  motherboard_serial = none;
  logged_user = none;
  os_name = none;
  os_version = none;
  os_arch = none;
  domain_name = none;
  mac_addresses = [];
  install_mode = none;
  blocked = false;
  reused_existing = false;
  bound = false;
}

-- `LicenseRecord::default()`
abbrev pub no_license : LicenseRecord
no_license = record {
  document = none;
  company_name = none;
  company_email = none;
  blocked = false;
  active = false;
  expires_at = none;
  max_devices = none;
  devices_in_use = none;
  devices_available = none;
  application_slug = none;
  devices = [];
}

-- `max - used`, where that is no underflow.
abbrev pub devices_left : Option ℕ → Option ℕ → Option ℕ
devices_left (some most) (some in_use) = if leb in_use most then some (most - in_use) else none
devices_left _ _ = none

module _ {V : Type 0} (j : Json V) (f : Formats) where
  unfoldable pub parse_bool : V → Bool
  parse_bool v = elim (j.view v) [
    | bool b ↦ b
    | number n ↦ not (eqb_ℤ (unwrap_or n.as_i64 (pos 0)) (pos 0))
    | string s ↦ any (str_eq (f.to_uppercase (trim s))) truthy
    | _ ↦ false
  ]

  unfoldable pub parse_local : String → List String → Option DateTime
  parse_local raw [] = none
  parse_local raw (fmt ∷ fmts) =
      let rest = parse_local raw fmts in
      elim (and_then (f.parse_naive raw fmt) f.from_local) [ none ↦ rest | some t ↦ some t ]

  abbrev pub local_formats : List String
  local_formats = "%Y-%m-%d %H:%M:%S" ∷ "%d/%m/%Y %H:%M:%S" ∷ "%Y-%m-%d" ∷ []

  unfoldable pub parse_datetime : V → Option DateTime
  unfolding parse_local
  parse_datetime v = elim (as_str j v) [
    | none ↦ none
    | some raw ↦
        or_else (f.parse_from_rfc3339 raw)
          (or_else (f.parse_from_str raw "%Y-%m-%d %H:%M:%S%:z") (parse_local raw local_formats))
  ]

  unfoldable pub stringify_value : V → String
  stringify_value v = elim (j.view v) [
    | string s ↦ s
    | number n ↦ n.printed
    | bool b ↦ if b then "true" else "false"
    | _ ↦ ""
  ]

  -- `get(key).map(parse_bool)` of the first key that is there, or else the default.
  abbrev pub flag_at : List String → (String → Option V) → Bool → Bool
  flag_at keys get default = unwrap_or (map_option parse_bool (get_first keys get)) default

  -- `get(key).and_then(as_u64).map(|v| v as u32)`
  abbrev pub u32_at : String → (String → Option V) → Option ℕ
  u32_at key get = map_option as_u32 (and_then (get key) (as_u64 j))

  abbrev pub date_at : List String → (String → Option V) → Option DateTime
  date_at keys get = and_then (get_first keys get) parse_datetime
