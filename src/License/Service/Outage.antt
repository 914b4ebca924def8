-- ===== src/License/Service/Outage.antt =====
-- The offline fallback of `check` (License/Service.antt), and how the cache serves it.
use tunnara.Prelude.{
  ℕ, ◌≡◌, ◌∙◌, refl, if◌then◌else◌, true, false, none, some, String, inl, inr, arith,
}
use tunnara.Prelude.Int.{leb_ℤ}
use tunnara.License.Models.{LicenseApiResponse, LicenseDecision, LicenseCheckInput, LicenseConfig}
use tunnara.License.Error.{LicenseError}
use tunnara.License.World.{ok, err, Call, returns, pure, World}
use tunnara.License.Api.{LicenseApi}
use tunnara.License.Cache.{put_decision, get}
use tunnara.License.Cache.Ending.{put_decision-ended}
use tunnara.License.Cache.RoundTrip.{FileLaws, Decodes, stamped, put_decision-get}
use tunnara.License.Rules.{Allows-bind, attempt_returns, bind_returns}
use tunnara.License.Legacy.{find_device, evaluate_legacy}
use tunnara.License.Legacy.Verdict.{
  Judged, MayRun, device_of, granted, unknown_company, company_blocked, license_expired,
  device_unknown, device_blocked,
}
use tunnara.License.Legacy.Sound.{evaluate_legacy-Judged}
use tunnara.License.Service.{
  offline_input, reuse_decision, relabel_decision, cache_expired_error, reuse_file, after_get,
  try_offline_cache_or_fail, store_decision, after_resolve, check_online,
}

module _ {E : Type 0} (w : World E) (api : LicenseApi E) (config : LicenseConfig)
    (prepare : LicenseCheckInput → Call E LicenseCheckInput) (fuel : ℕ) where
  -- A decision that the activation endpoint gave is what the check returns, whether or not the
  -- cache could be written.
  pub check_online_activated :
      (input : LicenseCheckInput) (d : LicenseDecision) (e : E)
      → config.prefer_resolve_activation ≡ true
      → (api.resolve_activation input e).0 ≡ ok d
      → (e' : E) × (check_online w api config prepare fuel input e ≡ returns (ok d) e')
  unfolding check_online after_resolve store_decision
  check_online_activated input d e prefer h =
      simp (prefer, h)
        (attempt_returns (put_decision w config.cache_namespace input.company_document d)
          (api.resolve_activation input e).1 d
          (put_decision-ended w config.cache_namespace input.company_document d
            (api.resolve_activation input e).1))

  -- A decision that was cached answers a later outage, while the files stay as they were left: at
  -- the reading of the clock that the fallback makes, the caller gets it back, marked as offline,
  -- if the file is not older than the configured age, and the error of an expired cache otherwise.
  pub cached_decision_serves :
      (laws : FileLaws w) (document : String) (failure : LicenseError) (d : LicenseDecision)
      (e e' later : E)
      → Decodes w (stamped w d e)
      → put_decision w config.cache_namespace document d e ≡ returns (ok tt) e'
      → laws.content later ≡ laws.content e'
      → (at_use : E) × (try_offline_cache_or_fail w api config prepare fuel document failure later
          ≡ returns
              (if leb_ℤ
                  (w.num_days (w.utc_now at_use).0 (w.utc_now e).0)
                  config.offline_max_age_days
                then ok (reuse_decision d)
                else err cache_expired_error)
              (w.utc_now at_use).1)
  unfolding try_offline_cache_or_fail after_get reuse_file
  cached_decision_serves laws document failure d e e' later decodes h same =
      let (e₁, got) =
        put_decision-get w laws config.cache_namespace document d e e' later decodes h same in
      (
        e₁,
        bind_returns (get w config.cache_namespace document)
              (after_get w api config prepare fuel document failure) later got
            ∙ ground arith,
      )

  -- The verdicts on a payload without the empty key are denials, where a device must be listed.
  payload-denied :
      (document : String) (payload : LicenseApiResponse) (d : LicenseDecision)
      → config.block_on_device_missing ≡ true
      → find_device payload.license "" ≡ none
      → Judged w api config (offline_input document) true (λ p. p ≡ payload) d
      → d.allowed ≡ false
  payload-denied document payload d strict absent (p, same, granted warning ds may run eq) =
      let run' : MayRun w config (offline_input document)
          (device_of w config (offline_input document) payload) =
        rw same at run in
      let lax : MayRun w config (offline_input document) none = rw absent at run' in cc
  payload-denied document payload d strict absent (p, same, unknown_company ds s eq) = cc
  payload-denied document payload d strict absent (p, same, company_blocked s b eq) = cc
  payload-denied document payload d strict absent (p, same, license_expired s b x eq) = cc
  payload-denied document payload d strict absent (p, same, device_unknown ds may a b eq) = cc
  payload-denied document payload d strict absent (p, same, device_blocked v may a b eq) = cc

  -- A cached payload never allows, where a device must be listed, nothing is registered
  -- automatically, and the payload lists no device with an empty key: the offline path asks for
  -- the device with the empty key.
  pub cached_payload_denies :
      (document : String) (failure : LicenseError) (payload : LicenseApiResponse) (e : E)
      (d : LicenseDecision) (e' : E)
      → config.block_on_device_missing ≡ true
      → config.auto_register_company_on_missing ≡ false
      → config.auto_register_device_on_missing ≡ false
      → find_device payload.license "" ≡ none
      → reuse_file w api config prepare fuel document failure none (some payload) e
        ≡ returns (ok d) e'
      → d.allowed ≡ false
  unfolding reuse_file
  cached_payload_denies document failure payload e d e' strict company device absent h = rw h at (
      Allows-bind (λ (x : LicenseDecision). x.allowed ≡ false)
        (evaluate_legacy w api config fuel payload (offline_input document) true)
        (λ decision. pure (relabel_decision decision)) e
        (λ decision e₁ done. payload-denied document payload decision strict absent (
          rw done at (
            evaluate_legacy-Judged w api config (offline_input document) true (λ p. p ≡ payload)
              fuel payload e (elim [ inl on ↦ absurd (cc) | inr on ↦ absurd (cc) ]) refl))))
