-- ===== src/License/Prepare.antt =====
-- How `GenericLicenseService::check` of
-- apps/console/src-tauri/generic-license-tauri/src/service.rs prepares its input, once the
-- document is reduced to its digits: with the machine's data, then with the registration file.
mod Tests
use tunnara.License.Models.{LicenseCheckInput, LicenseConfig}
use tunnara.License.World.{Result, ok, Call}
use tunnara.License.Json.{Json}
use tunnara.License.Device.{Machine, enrich_input}
use tunnara.License.Registration.{Host, and_result, enrich_input_from_registration_file}

module _ {E V Key : Type 0} (machine : E → Machine) (host : E → Host V Key) (j : Json V)
    (config : LicenseConfig) where
  abbrev prepared : E → LicenseCheckInput → Result LicenseCheckInput
  prepared e i =
      and_result
        (enrich_input_from_registration_file (host e) j config (enrich_input (machine e) i))
        (λ r. ok r.0)

  -- The machine and its files are only read.
  pub prepare : LicenseCheckInput → Call E LicenseCheckInput
  prepare i e = (prepared e i, e)
