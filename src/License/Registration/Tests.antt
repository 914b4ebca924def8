-- ===== src/License/Registration/Tests.antt =====
-- A host, runs on it of License/Registration.antt, and the theorems at concrete inputs.
use tunnara.Prelude.{◌≡◌, refl, ◌⊎◌, Bool, true, false, Option, some, String, [], ◌∷◌}
use tunnara.Prelude.Text.{trim}
use tunnara.License.Models.{LicenseCheckInput, LicenseConfig, default_config}
use tunnara.License.World.{ok}
use tunnara.License.Registration.{
  RegistrationFileDiscovery, candidate_paths, discover_registration_file,
  enrich_input_from_registration_file,
}
use tunnara.License.Registration.Search.{
  Signed, Found, NoneFound, discover_registration_file-Found, discover_registration_file-Signed,
}
use tunnara.License.Registration.Filling.{
  KeepsGiven, enrich_input_from_registration_file-KeepsGiven,
}
use tunnara.License.Registration.Unsigned.{
  unkeyed, unmarked, enrich_input_from_registration_file-unkeyed,
}
use tunnara.License.Fixtures.{input}
use tunnara.License.Samples.{document, host, Value, values}

abbrev signed_config : LicenseConfig
signed_config = record default_config { registration_public_key_base64 = some "key" }

abbrev found : Option Bool → RegistrationFileDiscovery Value
found verified = record {
  searched_paths = "/app/wwreg.json" ∷ "/app/wwreg.lic" ∷ [];
  file_path = some "/app/wwreg.lic";
  content_b64 = some "";
  verified = verified;
  payload = some document;
  message = some "arquivo de registro localizado automaticamente";
}

discover_run : discover_registration_file (host true) values signed_config ≡ ok (found (some true))
unfolding discover_registration_file trim
discover_run = refl

forged_run : discover_registration_file (host false) values signed_config ≡ ok (found (some false))
unfolding discover_registration_file trim
forged_run = refl

abbrev unnamed : LicenseCheckInput
unnamed = record input { company_document = "" }

discover_registration_file-Found_example :
    NoneFound
      (host true)
      values
      []
      (candidate_paths (host true) values signed_config)
      (found (some true))
    ⊎ Found
        (host true)
        values
        signed_config
        []
        (candidate_paths (host true) values signed_config)
        (found (some true))
discover_registration_file-Found_example =
    discover_registration_file-Found (host true) values signed_config (found (some true))
      discover_run

discover_registration_file-Signed_example :
    (v : Value) × (k : String) × ((found (some true)).payload ≡ some v)
    × (signed_config.registration_public_key_base64 ≡ some k)
    × Signed (host true) values v k
discover_registration_file-Signed_example =
    discover_registration_file-Signed (host true) values signed_config (found (some true))
      discover_run refl

abbrev filled : LicenseCheckInput
filled = record unnamed {
  company_document = "12.3";
  registration_file_content_b64 = some "";
  registration_file_path = some "/app/wwreg.lic";
  registration_file_verified = some false;
}

enrich_input_from_registration_file-KeepsGiven_example :
    KeepsGiven (host false) values unnamed filled
unfolding enrich_input_from_registration_file trim
enrich_input_from_registration_file-KeepsGiven_example =
    enrich_input_from_registration_file-KeepsGiven (host false) values signed_config unnamed filled
      (some (found (some false))) refl

-- The signature is wrong, and the document is taken from the file.
enrich_input_from_registration_file-unkeyed_example :
    (o : LicenseCheckInput) × (found' : Option (RegistrationFileDiscovery Value))
    × (enrich_input_from_registration_file (host false) values (unkeyed signed_config) unnamed
        ≡ ok (o, found'))
    × (unmarked o ≡ unmarked filled)
unfolding enrich_input_from_registration_file trim
enrich_input_from_registration_file-unkeyed_example =
    enrich_input_from_registration_file-unkeyed (host false) values signed_config unnamed filled
      (some (found (some false))) refl
