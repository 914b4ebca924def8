-- ===== src/License/Device.antt =====
-- What the licence check knows about the machine, and how it completes its input with it:
-- apps/console/src-tauri/generic-license-tauri/src/device.rs, as it is compiled for Linux.
pub mod Laws
mod Tests
use tunnara.Prelude.{
  Bool, true, false, not, ◌&&◌, ◌||◌, Option, none, some, String, List, [], ◌∷◌, if◌then◌else◌,
  unwrap_or, or_else, map_option, find, map, first, filter, str_eq,
}
use tunnara.Prelude.Text.{
  ◌++◌, is_empty, trim, trim_start_matches, trim_end_matches, replace, contains, starts_with, lines,
  join,
}
use tunnara.License.Models.{LicenseCheckInput}

pub record DeviceCollectedInfo : Type 0 where
  pub station_name : String
  pub hostname : String
  pub computer_name : String
  pub serial_number : String
  pub machine_guid : String
  pub bios_serial : String
  pub motherboard_serial : String
  pub logged_user : String
  pub os_name : String
  pub os_version : String
  pub os_arch : String
  pub domain_name : String
  pub mac_addresses : List String
  pub install_mode : String

-- What the code reads of its machine, and the library calls that it applies to it.
pub record Machine : Type 0 where
  -- `hostname::get()`
  pub hostname_get : Option String
  -- `env::var`, and `env::current_exe` as a text
  pub env_var : String → Option String
  pub current_exe : Option String
  -- `env::consts`
  pub os : String
  pub arch : String
  pub read_to_string : String → Option String
  -- the path `address` of each entry of the directory
  pub addresses_in : String → Option (List String)
  pub to_uppercase : String → String
  -- `hex::encode(Sha256::digest(…))`
  pub sha256_hex : String → String

pub first_non_empty : List String → String
first_non_empty values = unwrap_or (find (λ v. not (is_empty (trim v))) values) ""

pub non_empty_or_none : String → Option String
non_empty_or_none value = if is_empty (trim value) then none else some value

module _ (m : Machine) where
  abbrev env_or : String → String → Option String
  env_or a b = or_else (m.env_var a) (m.env_var b)

  abbrev read_default : String → String
  read_default path = unwrap_or (m.read_to_string path) ""

  pub hostname_or_unknown : String
  hostname_or_unknown = unwrap_or m.hostname_get "unknown-host"

  pub current_user_or_unknown : String
  current_user_or_unknown = unwrap_or (env_or "USERNAME" "USER") "unknown-user"

  pub detect_install_mode : String
  detect_install_mode =
      let exe_str = unwrap_or m.current_exe "." in
      if contains (m.to_uppercase (unwrap_or (m.env_var "SESSIONNAME") "")) "RDP"
      then "terminal-session"
      else if starts_with exe_str "\\\\" || starts_with exe_str "//"
      then "shared-server"
      else "workstation"

  pub os_version : String
  os_version =
      unwrap_or
        (map_option
          (λ l. trim_end_matches b'"' (trim_start_matches b'"' (replace l "PRETTY_NAME=" "")))
          (find (λ l. starts_with l "PRETTY_NAME=") (lines (read_default "/etc/os-release"))))
        ""

  pub machine_guid : String
  machine_guid =
      unwrap_or
        (find (λ content. not (is_empty content))
          (map (λ path. trim (read_default path))
            ("/etc/machine-id" ∷ "/var/lib/dbus/machine-id" ∷ [])))
        ""

  pub bios_serial : String
  bios_serial = trim (read_default "/sys/class/dmi/id/bios_version")

  pub motherboard_serial : String
  motherboard_serial = trim (read_default "/sys/class/dmi/id/board_serial")

  pub system_serial_number : String
  system_serial_number = trim (read_default "/sys/class/dmi/id/product_uuid")

  pub domain_name : String
  domain_name = unwrap_or (env_or "USERDOMAIN" "DOMAINNAME") ""

  pub mac_addresses : List String
  mac_addresses =
      filter (λ mac. not (is_empty mac) && not (str_eq mac "00:00:00:00:00:00"))
        (map (λ path. trim (read_default path)) (unwrap_or (m.addresses_in "/sys/class/net") []))

  pub collect_device_metadata : DeviceCollectedInfo
  unfolding first_non_empty hostname_or_unknown current_user_or_unknown detect_install_mode
      os_version machine_guid bios_serial motherboard_serial system_serial_number domain_name
      mac_addresses
  collect_device_metadata = record {
    station_name = hostname_or_unknown;
    hostname = hostname_or_unknown;
    computer_name = unwrap_or (m.env_var "COMPUTERNAME") hostname_or_unknown;
    serial_number = first_non_empty (system_serial_number ∷ bios_serial ∷ []);
    machine_guid = machine_guid;
    bios_serial = bios_serial;
    motherboard_serial = motherboard_serial;
    logged_user = current_user_or_unknown;
    os_name = m.os;
    os_version = os_version;
    os_arch = m.arch;
    domain_name = domain_name;
    mac_addresses = mac_addresses;
    install_mode = detect_install_mode;
  }

  pub default_device_name : String
  unfolding collect_device_metadata
  default_device_name = collect_device_metadata.station_name

  pub generate_device_key : LicenseCheckInput → String
  generate_device_key input = m.sha256_hex (
      join "|" (
        input.app_id
        ∷ unwrap_or input.app_slug ""
        ∷ unwrap_or input.machine_guid ""
        ∷ unwrap_or input.bios_serial ""
        ∷ unwrap_or input.motherboard_serial ""
        ∷ unwrap_or (first input.mac_addresses) ""
        ∷ unwrap_or input.hostname ""
        ∷ unwrap_or input.os_name ""
        ∷ unwrap_or input.os_arch ""
        ∷ []))

  -- A field that is missing or empty takes the other value.
  abbrev pub fill : Option String → Option String → Option String
  fill given other = if is_empty (unwrap_or given "") then other else given

  abbrev pub fill_list : List String → List String → List String
  fill_list [] other = other
  fill_list (x ∷ xs) other = x ∷ xs

  -- The fields that `enrich_input` fills before the key.
  pub fill_fields : DeviceCollectedInfo → LicenseCheckInput → LicenseCheckInput
  unfolding non_empty_or_none
  fill_fields info input = record input {
    hostname = fill input.hostname (some info.hostname);
    computer_name = fill input.computer_name (some info.computer_name);
    station_name = fill input.station_name (some info.station_name);
    device_name = fill input.device_name (some info.station_name);
    serial_number = fill input.serial_number (non_empty_or_none info.serial_number);
    machine_guid = fill input.machine_guid (non_empty_or_none info.machine_guid);
    bios_serial = fill input.bios_serial (non_empty_or_none info.bios_serial);
    motherboard_serial = fill input.motherboard_serial (non_empty_or_none info.motherboard_serial);
    logged_user = fill input.logged_user (non_empty_or_none info.logged_user);
    os_name = fill input.os_name (non_empty_or_none info.os_name);
    os_version = fill input.os_version (non_empty_or_none info.os_version);
    os_arch = fill input.os_arch (non_empty_or_none info.os_arch);
    domain_name = fill input.domain_name (non_empty_or_none info.domain_name);
    mac_addresses = fill_list input.mac_addresses info.mac_addresses;
    install_mode = fill input.install_mode (non_empty_or_none info.install_mode);
  }

  abbrev pub add_key : LicenseCheckInput → LicenseCheckInput
  add_key input = record input {
    device_key = fill input.device_key (some (generate_device_key input));
  }

  unfoldable pub enrich_input : LicenseCheckInput → LicenseCheckInput
  unfolding fill_fields collect_device_metadata generate_device_key
  enrich_input input = add_key (fill_fields collect_device_metadata input)
