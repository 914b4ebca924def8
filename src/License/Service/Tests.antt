-- ===== src/License/Service/Tests.antt =====
-- Runs of `check` (License/Service.antt), and its theorems at concrete inputs.
use tunnara.Prelude.{◌≡◌, refl, true, false, if◌then◌else◌, none, some, String, [], ◌∷◌}
use tunnara.Prelude.Int.{pos, leb_ℤ}
use tunnara.Prelude.Text.{show_ℤ}
use tunnara.License.Models.{
  LicenseApiResponse, LicenseDecision, LicenseCheckInput, CachedLicenseFile, default_config,
}
use tunnara.License.Error.{http, invalid}
use tunnara.License.World.{Result, ok, err, returns}
use tunnara.License.Cache.{put_payload, put_decision, get}
use tunnara.License.Legacy.{allow, deny, evaluate_legacy}
use tunnara.License.Service.{
  reuse_decision, relabel_decision, cache_expired_error, no_cache_error, reuse_file,
  try_offline_cache_or_fail, check_online, check,
}
use tunnara.License.Service.Provenance.{Prepared, Provenance, check_allowed}
use tunnara.License.Service.Outage.{
  check_online_activated, cached_decision_serves, cached_payload_denies,
}
use tunnara.License.Fixtures.{Disk, disk, disk_laws, device, license, response, api, input, no_file}

abbrev good : LicenseApiResponse
good = response (pos 1) (license false (device (some "k") false ∷ []))

abbrev warning : String
warning = "A licença vence em 0 dia(s)."

abbrev granted : LicenseDecision
granted = allow false (some warning) good.license (some (device (some "k") false)) []

abbrev prepare : LicenseCheckInput → Disk → Result LicenseCheckInput × Disk
prepare i e = (ok i, e)

-- The document as a user types it.
abbrev typed : LicenseCheckInput
typed = record input { company_document = "1.2-3" }

-- Activation fails, the legacy flow answers, and its decision ends up in the cache.
legacy_run :
    check (disk no_file) (api (err (http "x")) (ok good)) default_config prepare 1 typed none
    ≡ returns (ok granted) (some "{}")
unfolding check evaluate_legacy put_payload put_decision show_ℤ
legacy_run = refl

-- Everything fails and there is no cached file.
offline_run :
    check (disk no_file) (api (err (http "x")) (err (http "y"))) default_config prepare 1 typed none
    ≡ returns (err (no_cache_error (http "y"))) none
unfolding check get
offline_run = refl

empty_run :
    check
      (disk no_file)
      (api (err (http "x")) (ok good))
      default_config
      prepare
      1
      (record input { company_document = "./-" })
      none
    ≡ returns (err (invalid "documento da empresa não informado")) none
unfolding check
empty_run = refl

check_allowed_example :
    (i : LicenseCheckInput) × Prepared
      (disk no_file)
      (api (err (http "x")) (ok good))
      default_config
      prepare
      1
      typed
      none
      i
    × Provenance (disk no_file) (api (err (http "x")) (ok good)) default_config i granted
check_allowed_example =
    check_allowed (disk no_file) (api (err (http "x")) (ok good)) default_config prepare 1 typed
      none granted (some "{}") legacy_run refl

check_online_activated_example :
    (e' : Disk) × (check_online
        (disk no_file)
        (api (ok granted) (ok good))
        default_config
        prepare
        1
        input
        none
      ≡ returns (ok granted) e')
check_online_activated_example =
    check_online_activated (disk no_file) (api (ok granted) (ok good)) default_config prepare 1
      input granted none refl refl

abbrev held : CachedLicenseFile
held = record { cached_at = pos 0; decision = some granted; payload = none }

put_run :
    put_decision (disk held) default_config.cache_namespace "123" granted none
    ≡ returns (ok tt) (some "{}")
unfolding put_decision
put_run = refl

cached_decision_serves_example :
    (at_use : Disk) × (try_offline_cache_or_fail
        (disk held)
        (api (err (http "x")) (err (http "y")))
        default_config
        prepare
        1
        "123"
        (http "y")
        (some "{}")
      ≡ returns
          (if leb_ℤ (pos 0) default_config.offline_max_age_days
            then ok (reuse_decision granted)
            else err cache_expired_error)
          at_use)
cached_decision_serves_example =
    cached_decision_serves (disk held) (api (err (http "x")) (err (http "y"))) default_config
      prepare 1 (disk_laws held) "123" (http "y") granted none (some "{}") (some "{}") (λ s h. refl)
      put_run refl

abbrev refused : LicenseDecision
refused =
    deny "dispositivo não autorizado para esta licença" "DEVICE_NOT_FOUND" "resolve_device" true
      good.license none []

payload_run :
    reuse_file
      (disk no_file)
      (api (err (http "x")) (err (http "y")))
      default_config
      prepare
      1
      "123"
      (http "y")
      none
      (some good)
      none
    ≡ returns (ok (relabel_decision refused)) none
unfolding reuse_file evaluate_legacy
payload_run = refl

cached_payload_denies_example : (relabel_decision refused).allowed ≡ false
cached_payload_denies_example =
    cached_payload_denies (disk no_file) (api (err (http "x")) (err (http "y"))) default_config
      prepare 1 "123" (http "y") good none (relabel_decision refused) none refl refl refl refl
      payload_run
