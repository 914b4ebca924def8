-- ===== src/License/Models.antt =====
-- The records of apps/console/src-tauri/generic-license-tauri/src/models.rs. A point in time
-- (`DateTime<FixedOffset>`) is an integer, read only through the operations of `World`; a
-- `BTreeMap<String, String>` is its list of entries; `i32` and `i64` are integers, `u32` is ℕ.
use tunnara.Prelude.{ℕ, Bool, false, true, Option, none, String, List, [], ◌∷◌}
use tunnara.Prelude.Int.{ℤ, pos}

abbrev pub DateTime : Type 0
DateTime = ℤ

pub record DeviceRecord : Type 0 where
  pub id : Option String
  pub device_key : Option String
  pub device_name : Option String
  pub station_name : Option String
  pub hostname : Option String
  pub computer_name : Option String
  pub serial_number : Option String
  pub machine_guid : Option String
  pub bios_serial : Option String
  pub motherboard_serial : Option String
  pub logged_user : Option String
  pub os_name : Option String
  pub os_version : Option String
  pub os_arch : Option String
  pub domain_name : Option String
  pub mac_addresses : List String
  pub install_mode : Option String
  pub blocked : Bool
  pub reused_existing : Bool
  pub bound : Bool

pub record LicenseRecord : Type 0 where
  pub document : Option String
  pub company_name : Option String
  pub company_email : Option String
  pub blocked : Bool
  pub active : Bool
  pub expires_at : Option DateTime
  pub max_devices : Option ℕ
  pub devices_in_use : Option ℕ
  pub devices_available : Option ℕ
  pub application_slug : Option String
  pub devices : List DeviceRecord

pub record LicenseApiResponse : Type 0 where
  pub status : ℤ
  pub message : Option String
  pub license : LicenseRecord

pub record CompanyRecord : Type 0 where
  pub id : Option String
  pub document : Option String
  pub legal_name : Option String
  pub email : Option String
  pub reused_existing : Bool

pub record ApplicationLicenseRecord : Type 0 where
  pub application_slug : Option String
  pub status : Option String
  pub max_devices : Option ℕ
  pub devices_in_use : Option ℕ
  pub devices_available : Option ℕ
  pub expires_at : Option DateTime

pub record OfflineDecision : Type 0 where
  pub cache_allowed_until : Option DateTime

pub record DiagnosticItem : Type 0 where
  pub step : String
  pub code : String
  pub message : String

pub record LicenseDecision : Type 0 where
  pub allowed : Bool
  pub decision : String
  pub reason_code : Option String
  pub step : Option String
  pub message : String
  pub used_offline_cache : Bool
  pub warning : Option String
  pub license : Option LicenseRecord
  pub application_license : Option ApplicationLicenseRecord
  pub company : Option CompanyRecord
  pub device : Option DeviceRecord
  pub offline : Option OfflineDecision
  pub diagnostics : List DiagnosticItem
  pub source : String

pub record CachedLicenseFile : Type 0 where
  pub cached_at : DateTime
  pub decision : Option LicenseDecision
  pub payload : Option LicenseApiResponse

-- What a caller asks to have checked.
pub record LicenseCheckInput : Type 0 where
  pub company_document : String
  pub company_name : Option String
  pub company_email : Option String
  pub company_legal_name : Option String
  pub app_id : String
  pub app_name : String
  pub app_version : String
  pub app_slug : Option String
  pub device_key : Option String
  pub device_name : Option String
  pub station_name : Option String
  pub hostname : Option String
  pub computer_name : Option String
  pub serial_number : Option String
  pub machine_guid : Option String
  pub bios_serial : Option String
  pub motherboard_serial : Option String
  pub logged_user : Option String
  pub os_name : Option String
  pub os_version : Option String
  pub os_arch : Option String
  pub domain_name : Option String
  pub mac_addresses : List String
  pub install_mode : Option String
  pub registration_file_content_b64 : Option String
  pub registration_file_path : Option String
  pub registration_file_verified : Option Bool
  pub allow_company_auto_create : Option Bool
  pub allow_device_auto_create : Option Bool
  pub allow_device_auto_update : Option Bool
  pub requested_licenses : Option ℕ
  pub device_identifier : Option String
  pub validation_mode : Option String
  pub interface_mode : Option String
  pub local_license_mode : Option String
  pub metadata : List (String × String)
  pub login_context : Bool

pub record LicenseConfig : Type 0 where
  pub base_url : String
  pub api_token : Option String
  pub resolve_activation_endpoint : String
  pub status_endpoint : String
  pub register_company_endpoint : String
  pub register_device_endpoint : String
  pub update_device_endpoint : String
  pub offline_max_age_days : ℤ
  pub warn_before_expiration_in_days : ℤ
  pub auto_register_company_on_missing : Bool
  pub auto_register_device_on_missing : Bool
  pub auto_update_device_name : Bool
  pub block_on_company_blocked : Bool
  pub block_on_device_blocked : Bool
  pub block_on_device_missing : Bool
  pub block_on_expired : Bool
  pub cache_namespace : String
  pub prefer_resolve_activation : Bool
  pub allow_legacy_fallback : Bool
  pub enable_registration_file_lookup : Bool
  pub registration_file_names : List String
  pub registration_file_extra_paths : List String
  pub registration_public_key_base64 : Option String

-- `LicenseConfig::default`
abbrev pub default_config : LicenseConfig
default_config = record {
  base_url = "https://api.rest.wwsoftwares.com.br/api/v1";
  api_token = none;
  resolve_activation_endpoint = "/licensing/activation/resolve";
  status_endpoint =
      "81b3767f-7bc5-4275-9453-a6a921010a17/86d7b2bee439957e040b72be6fea5fc2/cliente/{document}";
  register_company_endpoint =
      "81b3767f-7bc5-4275-9453-a6a921010a17/86d7b2bee439957e040b72be6fea5fc2/clientes";
  register_device_endpoint =
      "81b3767f-7bc5-4275-9453-a6a921010a17/86d7b2bee439957e040b72be6fea5fc2/maquinas";
  update_device_endpoint =
      "81b3767f-7bc5-4275-9453-a6a921010a17/86d7b2bee439957e040b72be6fea5fc2/maquinas/IDMAQUINA/{id}";
  offline_max_age_days = pos 15;
  warn_before_expiration_in_days = pos 5;
  auto_register_company_on_missing = false;
  auto_register_device_on_missing = false;
  auto_update_device_name = true;
  block_on_company_blocked = true;
  block_on_device_blocked = true;
  block_on_device_missing = true;
  block_on_expired = true;
  cache_namespace = "default";
  prefer_resolve_activation = true;
  allow_legacy_fallback = true;
  enable_registration_file_lookup = true;
  registration_file_names = "wwreg.json" ∷ "wwreg.lic" ∷ [];
  registration_file_extra_paths = [];
  registration_public_key_base64 = none;
}
