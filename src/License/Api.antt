-- ===== src/License/Api.antt =====
-- The operations of `LicenseApiClient` that the service calls, as the service sees them:
-- apps/console/src-tauri/generic-license-tauri/src/client.rs.
use tunnara.Prelude.{String}
use tunnara.License.Models.{LicenseApiResponse, LicenseCheckInput, LicenseDecision}
use tunnara.License.World.{Call}

pub record LicenseApi (E : Type 0) : Type 0 where
  pub resolve_activation : LicenseCheckInput → Call E LicenseDecision
  pub company_status : String → Call E LicenseApiResponse
  pub register_company : LicenseCheckInput → Call E (Unit {0})
  pub register_device : LicenseCheckInput → Call E (Unit {0})
  pub update_device_name : String → LicenseCheckInput → Call E (Unit {0})
