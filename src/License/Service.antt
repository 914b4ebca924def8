-- ===== src/License/Service.antt =====
-- `GenericLicenseService::check` and its offline fallback:
-- apps/console/src-tauri/generic-license-tauri/src/service.rs.
pub mod Provenance
pub mod Outage
mod Tests
use tunnara.Prelude.{ℕ, true, false, Option, none, some, String, [], if◌then◌else◌, or_else}
use tunnara.Prelude.Int.{ℤ, leb_ℤ}
use tunnara.Prelude.Text.{◌++◌ as append, is_empty, filter_chars, is_ascii_digit}
use tunnara.License.Models.{
  LicenseApiResponse, LicenseDecision, LicenseCheckInput, LicenseConfig, CachedLicenseFile,
}
use tunnara.License.Error.{LicenseError, invalid, structured, to_string}
use tunnara.License.World.{
  Result, ok, err, Call, M, pure, raise, ◌>>=◌, ◌>>◌, ask, try, attempt, World,
}
use tunnara.License.Api.{LicenseApi}
use tunnara.License.Cache.{put_payload, put_decision, get}
use tunnara.License.Legacy.{evaluate_legacy}

pub only_digits : String → String
unfolding filter_chars
only_digits value = filter_chars is_ascii_digit value

-- The input that the offline path evaluates a cached payload with: nothing but the document.
abbrev pub offline_input : String → LicenseCheckInput
offline_input document = record {
  company_document = document;
  company_name = none;
  company_email = none;
  company_legal_name = none;
  app_id = "";
  app_name = "";
  app_version = "";
  app_slug = none;
  device_key = none;
  device_name = none;
  station_name = none;
  hostname = none;
  computer_name = none;
  serial_number = none;
  machine_guid = none;
  bios_serial = none;
  motherboard_serial = none;
  logged_user = none;
  os_name = none;
  os_version = none;
  os_arch = none;
  domain_name = none;
  mac_addresses = [];
  install_mode = none;
  registration_file_content_b64 = none;
  registration_file_path = none;
  registration_file_verified = none;
  allow_company_auto_create = none;
  allow_device_auto_create = none;
  allow_device_auto_update = none;
  requested_licenses = none;
  device_identifier = none;
  validation_mode = none;
  interface_mode = none;
  local_license_mode = none;
  metadata = [];
  login_context = false;
}

-- A cached decision as the offline path hands it on.
abbrev pub reuse_decision : LicenseDecision → LicenseDecision
reuse_decision decision = record decision {
  used_offline_cache = true;
  source = "offline";
  reason_code = or_else decision.reason_code (some "ONLINE_VALIDATION_FAILED_USING_CACHE");
}

-- The decision on a cached payload as the offline path hands it on.
abbrev pub relabel_decision : LicenseDecision → LicenseDecision
relabel_decision decision = record decision {
  reason_code = some "ONLINE_VALIDATION_FAILED_USING_CACHE";
  source = "offline";
}

abbrev pub no_cache_error : LicenseError → LicenseError
no_cache_error e = structured "offline_cache" "ONLINE_VALIDATION_FAILED_NO_CACHE" (
    append (append "falha online (" (to_string e)) ") e não existe cache offline para esta licença")

abbrev pub cache_expired_error : LicenseError
cache_expired_error =
    structured "offline_cache" "OFFLINE_CACHE_EXPIRED" "falha online e o cache offline expirou"

-- `prepare` is `enrich_input`, then `enrich_input_from_registration_file`, whose `?` can fail.
module _ {E : Type 0} (w : World E) (api : LicenseApi E) (config : LicenseConfig)
    (prepare : LicenseCheckInput → Call E LicenseCheckInput) where
  -- The part of a cached file that is used: its decision, or else the decision on its payload;
  -- a file with neither gives the online error.
  pub reuse_file :
      ℕ
      → String
      → LicenseError
      → Option LicenseDecision
      → Option LicenseApiResponse
      → M E LicenseDecision
  reuse_file fuel document failure (some decision) payload = pure (reuse_decision decision)
  reuse_file fuel document failure none (some payload) =
      evaluate_legacy w api config fuel payload (offline_input document) true >>= λ decision.
      pure (relabel_decision decision)
  reuse_file fuel document failure none none = raise failure

  -- What the cache answered: no file, or one that is used up to its age.
  pub after_get : ℕ → String → LicenseError → Option CachedLicenseFile → M E LicenseDecision
  unfolding reuse_file
  after_get fuel document failure none = raise (no_cache_error failure)
  after_get fuel document failure (some cached) = do
    now ← ask w.utc_now
    let age_days : ℤ = w.num_days now cached.cached_at
    if leb_ℤ age_days config.offline_max_age_days
        then reuse_file fuel document failure cached.decision cached.payload
        else raise cache_expired_error

  pub try_offline_cache_or_fail : ℕ → String → LicenseError → M E LicenseDecision
  unfolding after_get
  try_offline_cache_or_fail fuel document failure =
      get w config.cache_namespace document >>= after_get fuel document failure

  -- The decision is cached, and returned whether or not that worked.
  pub store_decision : LicenseCheckInput → LicenseDecision → M E LicenseDecision
  store_decision input decision = do
    attempt (put_decision w config.cache_namespace input.company_document decision)
    pure decision

  pub after_status : ℕ → LicenseCheckInput → Result LicenseApiResponse → M E LicenseDecision
  unfolding try_offline_cache_or_fail store_decision
  after_status fuel input (err failure) =
      try_offline_cache_or_fail fuel input.company_document failure
  after_status fuel input (ok payload) =
      attempt (put_payload w config.cache_namespace input.company_document payload) >>= λ _.
      evaluate_legacy w api config fuel payload input false >>= store_decision input

  -- The legacy flow: the company's status, evaluated and cached.
  pub check_legacy : ℕ → LicenseCheckInput → M E LicenseDecision
  unfolding after_status
  check_legacy fuel input =
      attempt (try (api.company_status input.company_document)) >>= after_status fuel input

  pub after_resolve : ℕ → LicenseCheckInput → Result LicenseDecision → M E LicenseDecision
  unfolding check_legacy
  after_resolve fuel input (ok decision) = store_decision input decision
  after_resolve fuel input (err failure) =
      if config.allow_legacy_fallback
      then check_legacy fuel input
      else try_offline_cache_or_fail fuel input.company_document failure

  pub check_online : ℕ → LicenseCheckInput → M E LicenseDecision
  unfolding after_resolve
  check_online fuel input =
      if config.prefer_resolve_activation
      then attempt (try (api.resolve_activation input)) >>= after_resolve fuel input
      else check_legacy fuel input

  pub after_prepare : ℕ → LicenseCheckInput → M E LicenseDecision
  unfolding check_online
  after_prepare fuel input =
      if is_empty input.company_document
      then raise (invalid "documento da empresa não informado")
      else check_online fuel input

  pub check : ℕ → LicenseCheckInput → M E LicenseDecision
  unfolding after_prepare only_digits
  check fuel given =
      try (prepare (record given { company_document = only_digits given.company_document }))
      >>= after_prepare fuel
