-- ===== src/License/Client/Tests.antt =====
-- Runs of the API client (License/Client.antt), and its theorems at concrete inputs.
use tunnara.Prelude.{ℕ, ◌≡◌, ◌||◌, refl, ◌↔◌, true, false, Option, some, String, ◌==◌}
use tunnara.Prelude.Text.{◌++◌, is_empty, trim, show_ℕ, trim_end_matches, trim_start_matches}
use tunnara.Prelude.Text.Trim.{first_is, last_is, only}
use tunnara.License.Models.{LicenseDecision, LicenseConfig, default_config}
use tunnara.License.Error.{endpoint_unavailable, structured}
use tunnara.License.World.{err, done}
use tunnara.License.Json.{as_object}
use tunnara.License.Normalize.{parse_bool}
use tunnara.License.Answers.{decision_from, normalize_activation_decision}
use tunnara.License.Answers.Laws.{Affirmed}
use tunnara.License.Client.{
  Response, resolve_activation, company_status, register_company, register_device,
  update_device_name, url,
}
use tunnara.License.Client.Laws.{
  Answered, Refused, unconfigured, resolve_activation_allowed, resolve_activation_unavailable,
  url-Joined,
}
use tunnara.License.Fixtures.{input}
use tunnara.License.Samples.{
  lookup, Value, fields, member, close, text, values, formats, server, reached, granting,
}

-- One request, and its body read as a decision.
activation_run :
    resolve_activation (server 200 (fields granting)) values formats reached input 0
    ≡ (normalize_activation_decision values formats (fields granting), 1)
unfolding resolve_activation trim
activation_run = refl

refused_run :
    resolve_activation
      (server 403 (fields (member "error" (text "no") close)))
      values
      formats
      reached
      input
      0
    ≡ (err (structured "resolve_activation" "ACTIVATION_RESOLVE_FAILED" "HTTP 403 - no"), 1)
unfolding resolve_activation trim show_ℕ
refused_run = refl

url_run : url (server 200 (fields close)) values formats reached "/v1/x" ≡ "https://api.test/v1/x"
unfolding url trim_end_matches trim_start_matches
url_run = refl

abbrev decision : LicenseDecision
decision = decision_from values formats (lookup granting)

abbrev unset : LicenseConfig
unset = record default_config { base_url = "  " }

unconfigured_example :
    Refused (resolve_activation (server 200 (fields close)) values formats unset input)
    × Refused (company_status (server 200 (fields close)) values formats unset "123")
    × Refused (register_company (server 200 (fields close)) values formats unset input)
    × Refused (register_device (server 200 (fields close)) values formats unset input)
    × Refused (update_device_name (server 200 (fields close)) values formats unset "7" input)
unfolding trim
unconfigured_example =
    unconfigured (server 200 (fields close)) values formats unset refl input "123" "7"

resolve_activation_allowed_example :
    (response : Response ℕ Value) × (e₁ : ℕ) × (body : Value) × (get : String → Option Value)
    × Answered (server 200 (fields granting)) values formats reached input 0 response e₁
    × ((response.status == 404 || response.status == 405) ≡ false)
    × ((server 200 (fields granting)).is_success response.status ≡ true)
    × (response.json e₁ ≡ (done body, 1))
    × (as_object values body ≡ some get)
    × Affirmed values formats get
unfolding resolve_activation trim normalize_activation_decision decision_from parse_bool
resolve_activation_allowed_example =
    resolve_activation_allowed (server 200 (fields granting)) values formats reached input decision
      0 1 refl refl

resolve_activation_unavailable_example :
    ((m : String) × ((resolve_activation (server 404 (text "x")) values formats reached input 0).0
        ≡ err (endpoint_unavailable m)))
    ↔ ((is_empty (trim reached.base_url) ≡ false)
        × ((response : Response ℕ Value) × (e₁ : ℕ) × Answered
              (server 404 (text "x"))
              values
              formats
              reached
              input
              0
              response
              e₁
            × ((response.status == 404 || response.status == 405) ≡ true)))
resolve_activation_unavailable_example =
    resolve_activation_unavailable (server 404 (text "x")) values formats reached input 0

url-Joined_example :
    (base : String) × (path : String) × (before : String) × (after : String) × (url
        (server 200 (fields close))
        values
        formats
        reached
        "//v1/x"
      ≡ base ++ "/" ++ path)
    × (reached.base_url ≡ base ++ before)
    × ("//v1/x" ≡ after ++ path)
    × (only b'/' before ≡ true)
    × (only b'/' after ≡ true)
    × (last_is b'/' base ≡ false)
    × (first_is b'/' path ≡ false)
url-Joined_example = url-Joined (server 200 (fields close)) values formats reached "//v1/x"
