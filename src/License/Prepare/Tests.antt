-- ===== src/License/Prepare/Tests.antt =====
-- A run of the preparation (License/Prepare.antt).
use tunnara.Prelude.{ℕ, ◌≡◌, refl, true, some, none}
use tunnara.Prelude.Text.{trim}
use tunnara.License.Models.{LicenseCheckInput, default_config}
use tunnara.License.World.{ok}
use tunnara.License.Device.{Machine, enrich_input}
use tunnara.License.Registration.{Host, enrich_input_from_registration_file}
use tunnara.License.Prepare.{prepare}
use tunnara.License.Fixtures.{input}
use tunnara.License.Samples.{Value, values, machine, host}

abbrev here : ℕ → Machine
here e = machine

abbrev files : ℕ → Host Value ℕ
files e = host true

-- The input has a document; the file is noted and changes nothing else.
abbrev ready : LicenseCheckInput
ready = record (enrich_input machine input) {
  registration_file_content_b64 = some "";
  registration_file_path = some "/app/wwreg.lic";
  registration_file_verified = none;
}

prepare_run : prepare here files values default_config input 0 ≡ (ok ready, 0)
unfolding prepare enrich_input enrich_input_from_registration_file trim
prepare_run = refl
