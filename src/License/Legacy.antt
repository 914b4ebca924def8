-- ===== src/License/Legacy.antt =====
-- The evaluation of a legacy licence payload: `evaluate_legacy` and its helpers in
-- apps/console/src-tauri/generic-license-tauri/src/service.rs. The source calls itself after a
-- registration; here that call is the argument `again` of the body, and `evaluate_legacy` ties
-- the knot on fuel, `running` when the fuel is spent.
pub mod Verdict
pub mod Sound
pub mod Termination
pub mod Decisions
mod Tests
use tunnara.Prelude.{
  ℕ, zero, suc, Bool, true, false, ◌&&◌, Option, none, some, String, List, [], ◌∷◌, if◌then◌else◌,
  unwrap_or, or_else, find, str_eq,
}
use tunnara.Prelude.Int.{ℤ, pos, leb_ℤ, eqb_ℤ}
use tunnara.Prelude.Text.{◌++◌ as append, show_ℤ}
use tunnara.License.Models.{
  DateTime, DeviceRecord, LicenseRecord, LicenseApiResponse, CompanyRecord,
  ApplicationLicenseRecord, DiagnosticItem, LicenseDecision, LicenseCheckInput, LicenseConfig,
}
use tunnara.License.Error.{LicenseError, to_string}
use tunnara.License.World.{
  Result, ok, err, Call, M, running, pure, ◌>>=◌, ◌>>◌, ask, try, attempt, World,
}
use tunnara.License.Api.{LicenseApi}
use tunnara.License.Cache.{put_payload}

abbrev pub source_label : Bool → String
source_label used_offline_cache = if used_offline_cache then "offline" else "online"

abbrev pub diag : String → String → String → DiagnosticItem
diag step code message = record { step = step; code = code; message = message }

abbrev pub company_failure : LicenseError → DiagnosticItem
company_failure e = diag "register_company" "COMPANY_AUTO_CREATE_FAILED" (to_string e)

abbrev pub device_failure : LicenseError → DiagnosticItem
device_failure e = diag "register_device" "DEVICE_AUTO_CREATE_FAILED" (to_string e)

abbrev pub application_from_legacy : LicenseRecord → ApplicationLicenseRecord
application_from_legacy license = record {
  application_slug = license.application_slug;
  status =
      some (if license.blocked then "blocked" else if license.active then "active" else "inactive");
  max_devices = license.max_devices;
  devices_in_use = license.devices_in_use;
  devices_available = license.devices_available;
  expires_at = license.expires_at;
}

abbrev pub company_from_legacy : LicenseRecord → CompanyRecord
company_from_legacy license = record {
  id = none;
  document = license.document;
  legal_name = license.company_name;
  email = license.company_email;
  reused_existing = false;
}

abbrev pub deny :
    String
    → String
    → String
    → Bool
    → LicenseRecord
    → Option DeviceRecord
    → List DiagnosticItem
    → LicenseDecision
deny message reason_code step used_offline_cache license device diagnostics = record {
  allowed = false;
  decision = "denied";
  reason_code = some reason_code;
  step = some step;
  message = message;
  used_offline_cache = used_offline_cache;
  warning = none;
  license = some license;
  application_license = some (application_from_legacy license);
  company = some (company_from_legacy license);
  device = device;
  offline = some (record { cache_allowed_until = none });
  diagnostics = diagnostics;
  source = source_label used_offline_cache;
}

abbrev pub has_key : String → DeviceRecord → Bool
has_key device_key device = str_eq (unwrap_or device.device_key "") device_key

-- The first device with the key; a device without one counts as having the empty key.
abbrev pub find_device : LicenseRecord → String → Option DeviceRecord
find_device license device_key = find (has_key device_key) license.devices

-- The name that the input gives the device.
abbrev pub device_name_of : LicenseCheckInput → String
device_name_of input = unwrap_or (or_else input.station_name input.device_name) ""

-- The denial for a company that the service does not know.
abbrev pub company_not_found : LicenseApiResponse → Bool → List DiagnosticItem → LicenseDecision
company_not_found payload used_offline_cache diagnostics =
    deny (unwrap_or payload.message "empresa não cadastrada no serviço de licenciamento")
      "COMPANY_NOT_FOUND" "resolve_company" used_offline_cache payload.license none diagnostics

-- The decision at the end, when nothing denied the licence.
abbrev pub allow :
    Bool
    → Option String
    → LicenseRecord
    → Option DeviceRecord
    → List DiagnosticItem
    → LicenseDecision
allow used_offline_cache warning license device diagnostics = record {
  allowed = true;
  decision = "allowed";
  reason_code =
      some (if used_offline_cache then "ONLINE_VALIDATION_FAILED_USING_CACHE" else "LICENSE_VALID");
  step = some "validate_license";
  message =
      if used_offline_cache
      then "licença validada com cache offline"
      else "licença validada com sucesso";
  used_offline_cache = used_offline_cache;
  warning = warning;
  license = some license;
  application_license = some (application_from_legacy license);
  company = some (company_from_legacy license);
  device = device;
  offline = some (record { cache_allowed_until = none });
  diagnostics = diagnostics;
  source = source_label used_offline_cache;
}

module _ {E : Type 0} (w : World E) (api : LicenseApi E) (config : LicenseConfig) where
  -- `expires_at < Utc::now() && block_on_expired`; the clock is read only if there is a date.
  pub expired : Option DateTime → M E Bool
  expired none = pure false
  expired (some expires_at) = do
    now ← ask w.utc_now
    pure (w.is_before expires_at now && config.block_on_expired)

  -- The warning of a licence that is about to expire.
  pub warning_of : Option DateTime → M E (Option String)
  warning_of none = pure none
  warning_of (some expires_at) = do
    now ← ask w.utc_now
    let days_left : ℤ = w.num_days expires_at now
    pure (
        if leb_ℤ (pos 0) days_left && leb_ℤ days_left config.warn_before_expiration_in_days
        then some (append (append "A licença vence em " (show_ℤ days_left)) " dia(s).")
        else none)

  -- After a registration: the registered payload is cached and evaluated in place of the old
  -- one; `give_up` is what follows when a call fails, with the diagnostics so far.
  module _ (again : LicenseApiResponse → M E LicenseDecision) (input : LicenseCheckInput)
      (failure : LicenseError → DiagnosticItem)
      (give_up : List DiagnosticItem → M E LicenseDecision) where
    pub after_status : Result LicenseApiResponse → M E LicenseDecision
    after_status (err _) = give_up []
    after_status (ok payload) = do
      attempt (put_payload w config.cache_namespace input.company_document payload)
      again payload

    pub after_register : Result (Unit {0}) → M E LicenseDecision
    unfolding after_status
    after_register (err e) = give_up (failure e ∷ [])
    after_register (ok _) =
        attempt (try (api.company_status input.company_document)) >>= after_status

    pub register_and_retry : Call E (Unit {0}) → M E LicenseDecision
    unfolding after_register
    register_and_retry register = attempt (try register) >>= after_register

  -- The branch `payload.status == 0`.
  pub missing_company :
      (LicenseApiResponse → M E LicenseDecision)
      → LicenseApiResponse
      → LicenseCheckInput
      → Bool
      → M E LicenseDecision
  unfolding register_and_retry
  missing_company again payload input used =
      if unwrap_or input.allow_company_auto_create config.auto_register_company_on_missing
      then register_and_retry again input company_failure
          (λ diagnostics. pure (company_not_found payload used diagnostics))
          (api.register_company input)
      else pure (company_not_found payload used [])

  pub after_rename : Result (Unit {0}) → M E (List DiagnosticItem)
  after_rename (ok _) = pure []
  after_rename (err e) = pure (diag "update_device" "DEVICE_AUTO_UPDATE_FAILED" (to_string e) ∷ [])

  -- The rename of a known device; the diagnostics that it leaves.
  pub rename_device :
      LicenseCheckInput → String → Option String → Option String → M E (List DiagnosticItem)
  unfolding after_rename
  rename_device input device_name (some id) (some name) =
      if str_eq name device_name
      then pure []
      else attempt (try (api.update_device_name id input)) >>= after_rename
  rename_device input device_name _ _ = pure []

  pub finish :
      LicenseRecord → Bool → Option DeviceRecord → List DiagnosticItem → M E LicenseDecision
  unfolding warning_of
  finish license used device diagnostics = do
    warning ← warning_of license.expires_at
    pure (allow used warning license device diagnostics)

  -- No device has the key, and none was registered.
  pub unregistered_device : LicenseRecord → Bool → List DiagnosticItem → M E LicenseDecision
  unfolding finish
  unregistered_device license used diagnostics =
      if config.block_on_device_missing
      then pure (
          deny "dispositivo não autorizado para esta licença" "DEVICE_NOT_FOUND" "resolve_device"
            used license none diagnostics)
      else finish license used none diagnostics

  pub missing_device :
      (LicenseApiResponse → M E LicenseDecision)
      → LicenseRecord
      → LicenseCheckInput
      → Bool
      → M E LicenseDecision
  unfolding register_and_retry unregistered_device
  missing_device again license input used =
      if unwrap_or input.allow_device_auto_create config.auto_register_device_on_missing
      then register_and_retry again input device_failure (unregistered_device license used)
          (api.register_device input)
      else unregistered_device license used []

  pub known_device : LicenseRecord → LicenseCheckInput → Bool → DeviceRecord → M E LicenseDecision
  unfolding rename_device finish
  known_device license input used current =
      if current.blocked && config.block_on_device_blocked
      then pure (
          deny "dispositivo bloqueado para esta licença" "DEVICE_BLOCKED" "validate_device" used
            license (some current) [])
      else if unwrap_or input.allow_device_auto_update config.auto_update_device_name
      then rename_device input (device_name_of input) current.id current.device_name
        >>= finish license used (some current)
      else finish license used (some current) []

  -- The company may use the licence: its device decides.
  pub check_device :
      (LicenseApiResponse → M E LicenseDecision)
      → LicenseRecord
      → LicenseCheckInput
      → Bool
      → Option DeviceRecord
      → M E LicenseDecision
  unfolding missing_device known_device
  check_device again license input used none = missing_device again license input used
  check_device again license input used (some current) = known_device license input used current

  pub after_expiry :
      (LicenseApiResponse → M E LicenseDecision)
      → LicenseRecord
      → LicenseCheckInput
      → Bool
      → Bool
      → M E LicenseDecision
  unfolding check_device
  after_expiry again license input used over =
      if over
      then pure (deny "licença expirada" "LICENSE_EXPIRED" "validate_license" used license none [])
      else check_device again license input used
          (find_device license (unwrap_or input.device_key ""))

  -- The company is known: its block, its expiry, then its device.
  pub known_company :
      (LicenseApiResponse → M E LicenseDecision)
      → LicenseRecord
      → LicenseCheckInput
      → Bool
      → M E LicenseDecision
  unfolding expired after_expiry
  known_company again license input used =
      if license.blocked && config.block_on_company_blocked
      then pure (
          deny "empresa bloqueada no serviço de licenciamento" "COMPANY_BLOCKED" "validate_company"
            used license none [])
      else expired license.expires_at >>= after_expiry again license input used

  pub evaluate_body :
      (LicenseApiResponse → M E LicenseDecision)
      → LicenseApiResponse
      → LicenseCheckInput
      → Bool
      → M E LicenseDecision
  unfolding missing_company known_company
  evaluate_body again payload input used =
      if eqb_ℤ payload.status (pos 0)
      then missing_company again payload input used
      else known_company again payload.license input used

  unfoldable pub evaluate_legacy :
      ℕ → LicenseApiResponse → LicenseCheckInput → Bool → M E LicenseDecision
  unfolding evaluate_body
  evaluate_legacy zero payload input used = λ _. running
  evaluate_legacy (suc fuel) payload input used =
      evaluate_body (λ registered. evaluate_legacy fuel registered input used) payload input used
