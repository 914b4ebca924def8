-- ===== src/License/Fixtures.antt =====
-- A small world for tests: the state is the content of the only file there is, the clock stands
-- at 0, and every file decodes to one given record.
use tunnara.Prelude.{Bool, true, false, Option, none, some, String, List, [], is_some, refl, arith}
use tunnara.Prelude.Int.{ℤ, pos, ltb_ℤ}
use tunnara.Prelude.Text.{◌++◌}
use tunnara.License.Models.{
  DeviceRecord, LicenseRecord, LicenseApiResponse, LicenseDecision, LicenseCheckInput,
  LicenseConfig, CachedLicenseFile, default_config,
}
use tunnara.License.World.{Result, ok, Attempt, done, failed, World}
use tunnara.License.Api.{LicenseApi}
use tunnara.License.Cache.RoundTrip.{FileLaws}
use tunnara.License.Service.{offline_input}

abbrev pub Disk : Type 0
Disk = Option String

abbrev read : Disk → Attempt String
read none = failed "no file"
read (some s) = done s

abbrev pub disk : CachedLicenseFile → World Disk
disk file = record {
  utc_now = λ e. (pos 0, e);
  num_days = λ a b. pos 0;
  is_before = ltb_ℤ;
  data_local_dir = λ e. (some "/data", e);
  push = λ p s. p ++ "/" ++ s;
  parent = λ p. some p;
  exists = λ p e. (is_some e, e);
  read_to_string = λ p e. (read e, e);
  create_dir_all = λ p e. (done tt, e);
  write = λ p s e. (done tt, some s);
  sha256_hex = λ s. s;
  to_json = λ c. done "{}";
  from_json = λ s. done file;
}

pub disk_laws : (file : CachedLicenseFile) → FileLaws (disk file)
disk_laws file = record {
  content = λ e p. e;
  folder = "/data";
  folder_found = λ e. refl;
  folder_keeps = λ e. refl;
  exists_found = λ p s e h. ground arith;
  exists_keeps = λ p e. refl;
  read_found = λ p s e h. ground arith;
  write_kept = λ p s e h. refl;
}

abbrev pub device : Option String → Bool → DeviceRecord
device key blocked = record {
  id = some "7";
  device_key = key;
  device_name = some "pdv";
  station_name = none;
  hostname = none;
  computer_name = none;
  serial_number = none;
  machine_guid = none;
  bios_serial = none;
  motherboard_serial = none;
  logged_user = none;
  os_name = none;
  os_version = none;
  os_arch = none;
  domain_name = none;
  mac_addresses = [];
  install_mode = none;
  blocked = blocked;
  reused_existing = false;
  bound = false;
}

abbrev pub license : Bool → List DeviceRecord → LicenseRecord
license blocked devices = record {
  document = some "123";
  company_name = none;
  company_email = none;
  blocked = blocked;
  active = true;
  expires_at = some (pos 10);
  max_devices = some 2;
  devices_in_use = some 1;
  devices_available = some 1;
  application_slug = none;
  devices = devices;
}

abbrev pub response : ℤ → LicenseRecord → LicenseApiResponse
response status l = record { status = status; message = none; license = l }

-- An API whose status endpoint gives one answer, and whose other endpoints are given.
abbrev pub api : Result LicenseDecision → Result LicenseApiResponse → LicenseApi Disk
api resolved status = record {
  resolve_activation = λ input e. (resolved, e);
  company_status = λ document e. (status, e);
  register_company = λ input e. (ok tt, e);
  register_device = λ input e. (ok tt, e);
  update_device_name = λ id input e. (ok tt, e);
}

-- The input of the device "k".
abbrev pub input : LicenseCheckInput
input = record (offline_input "123") { device_key = some "k"; station_name = some "pdv" }

-- The configuration that registers companies and devices by itself.
abbrev pub auto_config : LicenseConfig
auto_config = record default_config {
  auto_register_company_on_missing = true;
  auto_register_device_on_missing = true;
}

abbrev pub no_file : CachedLicenseFile
no_file = record { cached_at = pos 0; decision = none; payload = none }
