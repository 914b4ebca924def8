-- ===== src/License/Legacy/Tests.antt =====
-- Runs of `evaluate_legacy` (License/Legacy.antt), and its theorems at concrete inputs.
use tunnara.Prelude.{◌≡◌, refl, true, false, none, some, String, [], ◌∷◌, arith}
use tunnara.Prelude.Int.{pos}
use tunnara.License.Models.{LicenseApiResponse, LicenseDecision, default_config}
use tunnara.License.Error.{http}
use tunnara.License.World.{ok, err, returns, running}
use tunnara.Prelude.Text.{show_ℤ}
use tunnara.License.Cache.{put_payload}
use tunnara.License.Rules.{has_ended}
use tunnara.License.Legacy.{allow, deny, evaluate_legacy}
use tunnara.License.Legacy.Decisions.{
  Source, Rests, Reason, evaluate_legacy_allowed, evaluate_legacy_denied,
}
use tunnara.License.Legacy.Termination.{evaluate_legacy_ends, evaluate_legacy_diverges}
use tunnara.License.Fixtures.{disk, device, license, response, api, input, auto_config, no_file}

abbrev good : LicenseApiResponse
good = response (pos 1) (license false (device (some "k") false ∷ []))

abbrev blocked : LicenseApiResponse
blocked = response (pos 1) (license true (device (some "k") false ∷ []))

abbrev missing : LicenseApiResponse
missing = response (pos 0) (license false [])

abbrev warning : String
warning = "A licença vence em 0 dia(s)."

allowed_run :
    evaluate_legacy
      (disk no_file)
      (api (err (http "x")) (ok good))
      default_config
      1
      good
      input
      false
      none
    ≡ returns
        (ok (allow false (some warning) good.license (some (device (some "k") false)) []))
        none
unfolding evaluate_legacy show_ℤ
allowed_run = refl

denied_run :
    evaluate_legacy
      (disk no_file)
      (api (err (http "x")) (ok good))
      default_config
      1
      blocked
      input
      false
      none
    ≡ returns
        (ok (
          deny "empresa bloqueada no serviço de licenciamento" "COMPANY_BLOCKED" "validate_company"
            false blocked.license none []))
        none
unfolding evaluate_legacy
denied_run = refl

-- The company is registered, and the payload that the API then answers is evaluated and cached.
registered_run :
    evaluate_legacy
      (disk no_file)
      (api (err (http "x")) (ok good))
      auto_config
      2
      missing
      input
      false
      none
    ≡ returns
        (ok (allow false (some warning) good.license (some (device (some "k") false)) []))
        (some "{}")
unfolding evaluate_legacy show_ℤ put_payload
registered_run = refl

abbrev granted : LicenseDecision
granted = allow false (some warning) good.license (some (device (some "k") false)) []

evaluate_legacy_allowed_example :
    (p : LicenseApiResponse) × Source (api (err (http "x")) (ok good)) input good p
    × Rests (disk no_file) default_config input p granted
evaluate_legacy_allowed_example =
    evaluate_legacy_allowed (disk no_file) default_config input (api (err (http "x")) (ok good)) 1
      good false none granted none allowed_run refl

abbrev refused : LicenseDecision
refused =
    deny "empresa bloqueada no serviço de licenciamento" "COMPANY_BLOCKED" "validate_company" false
      blocked.license none []

evaluate_legacy_denied_example :
    (p : LicenseApiResponse) × Source (api (err (http "x")) (ok good)) input blocked p
    × Reason (disk no_file) default_config input p refused
evaluate_legacy_denied_example =
    evaluate_legacy_denied (disk no_file) default_config input (api (err (http "x")) (ok good)) 1
      blocked false none refused none denied_run refl

evaluate_legacy_ends_example :
    has_ended (
      evaluate_legacy
        (disk no_file)
        (api (err (http "x")) (ok good))
        auto_config
        3
        missing
        input
        false
        none)
    ≡ true
evaluate_legacy_ends_example =
    evaluate_legacy_ends (disk no_file) (api (err (http "x")) (ok good)) auto_config input false 3
      missing none (λ e p h. ground arith) (λ e p h. ground arith) (omega arith)

evaluate_legacy_diverges_example :
    evaluate_legacy
      (disk no_file)
      (api (err (http "x")) (ok missing))
      auto_config
      50
      missing
      input
      false
      none
    ≡ running
evaluate_legacy_diverges_example =
    evaluate_legacy_diverges (disk no_file) (api (err (http "x")) (ok missing)) auto_config input
      false 50 missing none (λ e. (refl, (missing, refl, refl))) refl refl
