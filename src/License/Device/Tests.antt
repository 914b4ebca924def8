-- ===== src/License/Device/Tests.antt =====
-- A machine, runs on it of License/Device.antt, and the theorems at concrete inputs.
use tunnara.Prelude.{◌≡◌, refl, true, none, some, String, [], ◌∷◌, unwrap_or}
use tunnara.Prelude.Text.{
  is_empty, contains, lines, replace, trim, trim_start_matches, trim_end_matches, join,
}
use tunnara.License.Models.{LicenseCheckInput}
use tunnara.License.Device.{
  os_version, mac_addresses, detect_install_mode, enrich_input, generate_device_key,
}
use tunnara.License.Device.Laws.{KeepsFields, enrich_input-KeepsFields}
use tunnara.License.Fixtures.{input}
use tunnara.License.Samples.{machine}

os_version_run : os_version machine ≡ "Linux 1"
unfolding os_version lines replace trim_start_matches trim_end_matches
os_version_run = refl

mac_addresses_run : mac_addresses machine ≡ "02:00:00:00:00:01" ∷ []
unfolding mac_addresses trim
mac_addresses_run = refl

install_mode_run : detect_install_mode machine ≡ "shared-server"
unfolding detect_install_mode contains
install_mode_run = refl

abbrev bare : LicenseCheckInput
bare = record input { device_key = none; app_id = "app" }

key_run :
    (enrich_input machine bare).device_key ≡ some "app|||||02:00:00:00:00:01|pdv-1|linux|x86_64"
unfolding enrich_input join trim
key_run = refl

enrich_input-KeepsFields_example :
    KeepsFields machine bare (enrich_input machine bare)
    × ((k : String) × ((enrich_input machine bare).device_key ≡ some k))
    × (is_empty (unwrap_or bare.device_key "") ≡ true
        → (enrich_input machine bare).device_key
          ≡ some (generate_device_key machine (enrich_input machine bare)))
enrich_input-KeepsFields_example = enrich_input-KeepsFields machine bare
