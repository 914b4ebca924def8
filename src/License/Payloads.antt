-- ===== src/License/Payloads.antt =====
-- The JSON documents that `LicenseApiClient` of
-- apps/console/src-tauri/generic-license-tauri/src/client.rs sends.
use tunnara.Prelude.{ℕ, Bool, Option, none, some, String, [], ◌∷◌, unwrap_or, or_else, is_some, map}
use tunnara.License.Models.{LicenseCheckInput, LicenseConfig}
use tunnara.License.Json.{Json}

module _ {V : Type 0} (j : Json V) where
  abbrev opt : Option String → V
  opt none = j.of_null
  opt (some s) = j.of_string s

  abbrev opt_bool : Option Bool → V
  opt_bool none = j.of_null
  opt_bool (some b) = j.of_bool b

  abbrev opt_ℕ : Option ℕ → V
  opt_ℕ none = j.of_null
  opt_ℕ (some n) = j.of_ℕ n

  -- `unwrap_or_default()` as a JSON text.
  abbrev str : Option String → V
  str s = j.of_string (unwrap_or s "")

  pub company_payload : String → LicenseCheckInput → V
  company_payload now i = j.of_object (
      ("DATACAD", j.of_string now)
      ∷ ("CNPJ", j.of_string i.company_document)
      ∷ ("EMP_EMAIL", str i.company_email)
      ∷ ("RAZAOSOCIAL", str (or_else i.company_legal_name i.company_name))
      ∷ ("EMP_NOMEFANTASIA", str i.company_name)
      ∷ ("ATIVO", j.of_string "S")
      ∷ ("BLOQUEADO", j.of_string "N")
      ∷ ("QTD_MAQ", j.of_ℕ (unwrap_or i.requested_licenses 0))
      ∷ ("N_MAQUINAS", j.of_ℕ (unwrap_or i.requested_licenses 0))
      ∷ ("APP_INSTANCE", j.of_string (unwrap_or i.app_slug i.app_id))
      ∷ ("MODO_VALIDACAO", str i.validation_mode)
      ∷ [])

  pub device_payload : LicenseCheckInput → V
  device_payload i = j.of_object (
      ("CNPJ", j.of_string i.company_document)
      ∷ ("CHAVE", str i.device_key)
      ∷ ("NOME", str (or_else i.station_name i.device_name))
      ∷ ("NOMEMAQ", str (or_else i.station_name i.device_name))
      ∷ ("nome_compu", str (or_else i.computer_name i.hostname))
      ∷ ("BLOQUEADO", j.of_string "N")
      ∷ ("versaoexe", j.of_string i.app_version)
      ∷ ("observacao", j.of_string i.app_name)
      ∷ ("sistema_operacional", str (or_else i.os_version i.os_name))
      ∷ ("tipo", str i.install_mode)
      ∷ ("Cod_ace_Remoto", str i.domain_name)
      ∷ ("Prog_acesso", str i.logged_user)
      ∷ ("tecnico_instalacao", str i.logged_user)
      ∷ ("serial_number", str i.serial_number)
      ∷ ("machine_guid", str i.machine_guid)
      ∷ ("bios_serial", str i.bios_serial)
      ∷ ("motherboard_serial", str i.motherboard_serial)
      ∷ ("hostname", str i.hostname)
      ∷ ("station_name", str i.station_name)
      ∷ ("device_identifier", str i.device_identifier)
      ∷ ("full_device_name", str i.device_name)
      ∷ ("app_slug", str i.app_slug)
      ∷ ("validation_mode", str i.validation_mode)
      ∷ [])

  pub name_payload : LicenseCheckInput → V
  name_payload i = j.of_object (
      ("NOME", str (or_else i.station_name i.device_name))
      ∷ ("NOMEMAQ", str (or_else i.station_name i.device_name))
      ∷ ("nome_compu", str (or_else i.computer_name i.hostname))
      ∷ ("versaoexe", j.of_string i.app_version)
      ∷ ("sistema_operacional", str (or_else i.os_version i.os_name))
      ∷ ("serial_number", str i.serial_number)
      ∷ ("hostname", str i.hostname)
      ∷ ("machine_guid", str i.machine_guid)
      ∷ ("bios_serial", str i.bios_serial)
      ∷ ("motherboard_serial", str i.motherboard_serial)
      ∷ [])

  pub resolve_payload : LicenseConfig → LicenseCheckInput → V
  resolve_payload c i = j.of_object (
      (
        "app",
        j.of_object (
            ("slug", j.of_string (unwrap_or i.app_slug i.app_id))
            ∷ ("app_id", j.of_string i.app_id)
            ∷ ("name", j.of_string i.app_name)
            ∷ ("version", j.of_string i.app_version)
            ∷ []),
      )
      ∷ (
        "company",
        j.of_object (
            ("document", j.of_string i.company_document)
            ∷ ("email", opt i.company_email)
            ∷ ("legal_name", opt (or_else i.company_legal_name i.company_name))
            ∷ ("trade_name", opt i.company_name)
            ∷ []),
      )
      ∷ (
        "device",
        j.of_object (
            ("fingerprint", opt i.device_key)
            ∷ ("station_name", opt (or_else i.station_name i.device_name))
            ∷ ("hostname", opt i.hostname)
            ∷ ("computer_name", opt i.computer_name)
            ∷ ("serial_number", opt i.serial_number)
            ∷ ("machine_guid", opt i.machine_guid)
            ∷ ("bios_serial", opt i.bios_serial)
            ∷ ("motherboard_serial", opt i.motherboard_serial)
            ∷ ("logged_user", opt i.logged_user)
            ∷ ("os_name", opt i.os_name)
            ∷ ("os_version", opt i.os_version)
            ∷ ("os_arch", opt i.os_arch)
            ∷ ("domain_name", opt i.domain_name)
            ∷ ("mac_addresses", j.of_array (map j.of_string i.mac_addresses))
            ∷ ("install_mode", opt i.install_mode)
            ∷ []),
      )
      ∷ (
        "registration_file",
        j.of_object (
            ("present", j.of_bool (is_some i.registration_file_content_b64))
            ∷ ("file_path", opt i.registration_file_path)
            ∷ ("content_b64", opt i.registration_file_content_b64)
            ∷ ("verified", opt_bool i.registration_file_verified)
            ∷ []),
      )
      ∷ (
        "options",
        j.of_object (
            (
              "allow_company_auto_create",
              j.of_bool (unwrap_or i.allow_company_auto_create c.auto_register_company_on_missing),
            )
            ∷ (
              "allow_device_auto_create",
              j.of_bool (unwrap_or i.allow_device_auto_create c.auto_register_device_on_missing),
            )
            ∷ (
              "allow_device_auto_update",
              j.of_bool (unwrap_or i.allow_device_auto_update c.auto_update_device_name),
            )
            ∷ ("requested_licenses", opt_ℕ i.requested_licenses)
            ∷ ("validation_mode", opt i.validation_mode)
            ∷ ("interface_mode", opt i.interface_mode)
            ∷ ("local_license_mode", opt i.local_license_mode)
            ∷ ("device_identifier", opt i.device_identifier)
            ∷ []),
      )
      ∷ ("metadata", j.of_object (map (λ (k, v). (k, j.of_string v)) i.metadata))
      ∷ [])
