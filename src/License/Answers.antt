-- ===== src/License/Answers.antt =====
-- The records that apps/console/src-tauri/generic-license-tauri/src/client.rs reads out of JSON
-- answers: a licence, a company, a device, and the two kinds of answer.
pub mod Laws
mod Tests
use tunnara.Prelude.{
  ℕ, Bool, true, false, ◌||◌, Option, none, some, String, List, [], ◌∷◌, map, if◌then◌else◌,
  unwrap_or, or_else, is_some, and_then, map_option, length, filter_map,
}
use tunnara.Prelude.Int.{ℤ, pos}
use tunnara.License.Models.{
  DateTime, DeviceRecord, LicenseRecord, LicenseApiResponse, CompanyRecord,
  ApplicationLicenseRecord, OfflineDecision, LicenseDecision,
}
use tunnara.License.Error.{serde}
use tunnara.License.World.{Result, ok, err}
use tunnara.License.Json.{
  Json, Formats, as_object, as_str, as_array, as_i64, as_u64, text_at, get_first,
}
use tunnara.License.Normalize.{
  as_u32, as_i32, no_device, no_license, devices_left, parse_bool, parse_datetime, stringify_value,
  flag_at, u32_at, date_at,
}

module _ {V : Type 0} (j : Json V) (f : Formats) where
  abbrev one : String → (String → Option V) → Option String
  one key get = text_at j (key ∷ []) get

  pub device_from : (String → Option V) → DeviceRecord
  device_from get = record {
    id =
        map_option (stringify_value j f)
          (get_first ("id" ∷ "IDMAQ" ∷ "IDMAQUINA" ∷ "idmaquina" ∷ []) get);
    device_key = text_at j ("device_key" ∷ "fingerprint" ∷ "key" ∷ "chave" ∷ "CHAVE" ∷ []) get;
    device_name = text_at j ("device_name" ∷ "NOME" ∷ "NOMEMAQ" ∷ "nome_compu" ∷ []) get;
    station_name = one "station_name" get;
    hostname = one "hostname" get;
    computer_name = one "computer_name" get;
    serial_number = one "serial_number" get;
    machine_guid = one "machine_guid" get;
    bios_serial = one "bios_serial" get;
    motherboard_serial = one "motherboard_serial" get;
    logged_user = one "logged_user" get;
    os_name = one "os_name" get;
    os_version = one "os_version" get;
    os_arch = one "os_arch" get;
    domain_name = one "domain_name" get;
    mac_addresses =
        unwrap_or (map_option (filter_map (as_str j)) (and_then (get "mac_addresses") (as_array j)))
          [];
    install_mode = one "install_mode" get;
    blocked = flag_at j f ("blocked" ∷ "BLOQUEADO" ∷ []) get false;
    reused_existing = flag_at j f ("reused_existing" ∷ []) get false;
    bound = flag_at j f ("bound" ∷ []) get false;
  }

  pub normalize_device : V → DeviceRecord
  unfolding device_from
  normalize_device v = elim (as_object j v) [ none ↦ no_device | some get ↦ device_from get ]

  pub devices_from : (String → Option V) → List DeviceRecord
  unfolding normalize_device
  devices_from get =
      unwrap_or
        (map_option (map normalize_device) (
          and_then
            (get_first ("devices" ∷ "computers" ∷ "COMPUTADORES" ∷ "maquinas" ∷ "MAQUINAS" ∷ [])
              get)
            (as_array j)))
        []

  abbrev pub max_devices_from : (String → Option V) → Option ℕ
  max_devices_from get =
      or_else (u32_at j f "max_devices" get)
        (or_else (u32_at j f "QTD_MAQ" get) (u32_at j f "n_maquinas" get))

  abbrev pub devices_in_use_from : (String → Option V) → Option ℕ
  devices_in_use_from get =
      or_else (u32_at j f "devices_in_use" get) (some (as_u32 (length (devices_from get))))

  pub license_from : (String → Option V) → LicenseRecord
  unfolding devices_from
  license_from get = record {
    document = text_at j ("document" ∷ "CNPJ" ∷ []) get;
    company_name = text_at j ("company_name" ∷ "RAZAO" ∷ "RAZAOSOCIAL" ∷ []) get;
    company_email = text_at j ("company_email" ∷ "EMP_EMAIL" ∷ []) get;
    blocked = flag_at j f ("blocked" ∷ "BLOQUEADO" ∷ []) get false;
    active = flag_at j f ("active" ∷ "ATIVO" ∷ []) get true;
    expires_at = date_at j f ("expires_at" ∷ "DATA_VAL_LIC" ∷ []) get;
    max_devices = max_devices_from get;
    devices_in_use = devices_in_use_from get;
    devices_available = devices_left (max_devices_from get) (devices_in_use_from get);
    application_slug = text_at j ("application_slug" ∷ "app_slug" ∷ []) get;
    devices = devices_from get;
  }

  pub normalize_license : V → LicenseRecord
  unfolding license_from
  normalize_license v = elim (as_object j v) [ none ↦ no_license | some get ↦ license_from get ]

  pub normalize_company : V → CompanyRecord
  normalize_company v = elim (as_object j v) [
    | none ↦ record {
      id = none;
      document = none;
      legal_name = none;
      email = none;
      reused_existing = false;
    }
    | some get ↦ record {
      id = map_option (stringify_value j f) (get "id");
      document = text_at j ("document" ∷ "CNPJ" ∷ []) get;
      legal_name = text_at j ("legal_name" ∷ "RAZAOSOCIAL" ∷ "RAZAO" ∷ []) get;
      email = text_at j ("email" ∷ "EMP_EMAIL" ∷ []) get;
      reused_existing = flag_at j f ("reused_existing" ∷ []) get false;
    }
  ]

  pub normalize_application_license : V → ApplicationLicenseRecord
  normalize_application_license v = elim (as_object j v) [
    | none ↦ record {
      application_slug = none;
      status = none;
      max_devices = none;
      devices_in_use = none;
      devices_available = none;
      expires_at = none;
    }
    | some get ↦ record {
      application_slug = text_at j ("application_slug" ∷ "slug" ∷ []) get;
      status = one "status" get;
      max_devices = u32_at j f "max_devices" get;
      devices_in_use = u32_at j f "devices_in_use" get;
      devices_available = u32_at j f "devices_available" get;
      expires_at = date_at j f ("expires_at" ∷ []) get;
    }
  ]

  pub normalize_offline : V → OfflineDecision
  normalize_offline v = elim (as_object j v) [
    | none ↦ record { cache_allowed_until = none }
    | some get ↦ record { cache_allowed_until = date_at j f ("cache_allowed_until" ∷ []) get }
  ]

  -- The decision that the object of an answer states.
  unfoldable pub decision_from : (String → Option V) → LicenseDecision
  unfolding normalize_license normalize_company normalize_application_license normalize_device
      normalize_offline
  decision_from get = record {
    allowed = flag_at j f ("success" ∷ []) get (flag_at j f ("allowed" ∷ []) get false);
    decision =
        unwrap_or (one "decision" get)
          (if flag_at j f ("allowed" ∷ []) get false then "allowed" else "denied");
    reason_code = one "reason_code" get;
    step = one "step" get;
    message = unwrap_or (one "message" get) "resposta recebida da API de ativação";
    used_offline_cache = false;
    warning = one "warning" get;
    license = map_option normalize_license (get "license");
    application_license = map_option normalize_application_license (get "application_license");
    company = map_option normalize_company (get "company");
    device = map_option normalize_device (get "device");
    offline = map_option normalize_offline (get "offline");
    diagnostics = [];
    source = "online";
  }

  unfoldable pub normalize_activation_decision : V → Result LicenseDecision
  unfolding decision_from
  normalize_activation_decision v = elim (as_object j v) [
    | none ↦ err (serde "resposta inválida da API de ativação")
    | some get ↦ ok (decision_from get)
  ]

  abbrev status_at : String → (String → Option V) → ℤ
  status_at key get = as_i32 (unwrap_or (and_then (get key) (as_i64 j)) (pos 0))

  -- An answer with the new keys, or else with the old ones in capitals.
  pub response_from : V → (String → Option V) → LicenseApiResponse
  unfolding normalize_license
  response_from v get =
      if is_some (get "license") || is_some (get "status")
      then record {
        status = status_at "status" get;
        message = one "message" get;
        license = unwrap_or (map_option normalize_license (get "license")) (normalize_license v);
      }
      else record {
        status = status_at "STATUS" get;
        message = one "MESSAGE" get;
        license = normalize_license v;
      }

  pub normalize_response : V → Result LicenseApiResponse
  unfolding response_from
  normalize_response v = elim (as_object j v) [
    | none ↦ err (serde "resposta inválida da API de licença")
    | some get ↦ ok (response_from v get)
  ]
