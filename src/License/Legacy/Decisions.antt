-- ===== src/License/Legacy/Decisions.antt =====
-- What can be read off a decision of `evaluate_legacy` (License/Legacy.antt).
use tunnara.Prelude.{
  ℕ, ◌≡◌, ◌≢◌, refl, ap, Bool, true, false, ◌⊎◌, inl, inr, none, some, if◌then◌else◌, arith,
}
use tunnara.Prelude.Int.{pos, eqb_ℤ}
use tunnara.License.Models.{
  DeviceRecord, LicenseApiResponse, LicenseDecision, LicenseCheckInput, LicenseConfig,
}
use tunnara.License.Error.{LicenseError}
use tunnara.License.World.{ok, err, returns, World}
use tunnara.License.Api.{LicenseApi}
use tunnara.License.Legacy.{source_label, evaluate_legacy}
use tunnara.License.Legacy.Verdict.{
  Expiry, MayUse, device_of, MayRun, Verdict, granted, unknown_company, company_blocked,
  license_expired, device_unknown, device_blocked, Judged,
}
use tunnara.License.Legacy.Sound.{evaluate_legacy-Judged}

-- The payload given, or one that the API answered about the document.
abbrev pub Source :
    {E : Type 0}
    → LicenseApi E
    → LicenseCheckInput
    → LicenseApiResponse
    → LicenseApiResponse
    → Type 0
Source {E} api input payload p =
    (p ≡ payload) ⊎ ((e : E) × ((api.company_status input.company_document e).0 ≡ ok p))

module _ {E : Type 0} (w : World E) (config : LicenseConfig) (input : LicenseCheckInput) where
  -- What an allowed decision rests on: a payload of a known, unblocked, unexpired licence whose
  -- device, if it is listed, is not blocked, and if it is not, need not be.
  abbrev pub Rests : LicenseApiResponse → LicenseDecision → Type 0
  Rests p d =
      MayUse w config input p
      × MayRun w config input (device_of w config input p)
      × (d.license ≡ some p.license)
      × (d.device ≡ device_of w config input p)

  -- The reason that a denial gives, with what is true of the payload.
  abbrev pub Reason : LicenseApiResponse → LicenseDecision → Type 0
  Reason p d =
      (d.license ≡ some p.license)
      × (((d.reason_code ≡ some "COMPANY_NOT_FOUND") × (eqb_ℤ p.status (pos 0) ≡ true))
          ⊎ ((d.reason_code ≡ some "COMPANY_BLOCKED") × (p.license.blocked ≡ true))
          ⊎ ((d.reason_code ≡ some "LICENSE_EXPIRED")
              × Expiry w config input p.license.expires_at true)
          ⊎ ((d.reason_code ≡ some "DEVICE_NOT_FOUND") × (device_of w config input p ≡ none))
          ⊎ ((d.reason_code ≡ some "DEVICE_BLOCKED")
              × ((device : DeviceRecord) × (device_of w config input p ≡ some device)
                  × (device.blocked ≡ true))))

  Verdict-Rests :
      (used : Bool) (p : LicenseApiResponse) (d : LicenseDecision)
      → Verdict w config input used p d
      → d.allowed ≡ true
      → Rests p d
  Verdict-Rests used p d (granted warning ds may run e) h =
      (may, run, ap (λ x. x.license) e, ap (λ x. x.device) e)
  Verdict-Rests used p d (unknown_company ds s e) h = cc
  Verdict-Rests used p d (company_blocked s b e) h = cc
  Verdict-Rests used p d (license_expired s b x e) h = cc
  Verdict-Rests used p d (device_unknown ds may a b e) h = cc
  Verdict-Rests used p d (device_blocked device may a b e) h = cc

  Verdict-Reason :
      (used : Bool) (p : LicenseApiResponse) (d : LicenseDecision)
      → Verdict w config input used p d
      → d.allowed ≡ false
      → Reason p d
  Verdict-Reason used p d (granted warning ds may run e) h = cc
  Verdict-Reason used p d (unknown_company ds s e) h = (cc, inl (cc, s))
  Verdict-Reason used p d (company_blocked s b e) h = (cc, inr (inl (cc, ground arith)))
  Verdict-Reason used p d (license_expired s b x e) h = (cc, inr (inr (inl (cc, x))))
  Verdict-Reason used p d (device_unknown ds may a b e) h = (cc, inr (inr (inr (inl (cc, a)))))
  Verdict-Reason used p d (device_blocked device may a b e) h =
      (cc, inr (inr (inr (inr (cc, (device, a, ground arith))))))

  -- The labels of a decision agree with its answer and with where it came from.
  abbrev pub Labelled : Bool → LicenseDecision → Type 0
  Labelled used d =
      (d.decision ≡ (if d.allowed then "allowed" else "denied"))
      × (d.used_offline_cache ≡ used)
      × (d.source ≡ source_label used)

  Verdict-Labelled :
      (used : Bool) (p : LicenseApiResponse) (d : LicenseDecision)
      → Verdict w config input used p d
      → Labelled used d
  Verdict-Labelled used p d (granted warning ds may run e) = rw e (refl, refl, refl)
  Verdict-Labelled used p d (unknown_company ds s e) = rw e (refl, refl, refl)
  Verdict-Labelled used p d (company_blocked s b e) = rw e (refl, refl, refl)
  Verdict-Labelled used p d (license_expired s b x e) = rw e (refl, refl, refl)
  Verdict-Labelled used p d (device_unknown ds may a b e) = rw e (refl, refl, refl)
  Verdict-Labelled used p d (device_blocked device may a b e) = rw e (refl, refl, refl)

  module _ (api : LicenseApi E) (rounds : ℕ) (payload : LicenseApiResponse) (used : Bool)
      (e : E) where
    evaluated-Judged :
        (d : LicenseDecision) (e' : E)
        → evaluate_legacy w api config rounds payload input used e ≡ returns (ok d) e'
        → Judged w api config input used (Source api input payload) d
    evaluated-Judged d e' h = rw h at (
        evaluate_legacy-Judged w api config input used (Source api input payload) rounds payload e
          (λ _ e p status. inr (e, status)) (inl refl))

    -- If `evaluate_legacy` allows, then the payload that it was given, or one that the API
    -- answered about the document, had a status other than 0, no block that counts and no
    -- expiry that counts; the device of the input is listed in it and has no block that counts,
    -- or is not listed and need not be; and the decision carries its licence and that device.
    pub evaluate_legacy_allowed :
        (d : LicenseDecision) (e' : E)
        → evaluate_legacy w api config rounds payload input used e ≡ returns (ok d) e'
        → d.allowed ≡ true
        → (p : LicenseApiResponse) × Source api input payload p × Rests p d
    evaluate_legacy_allowed d e' h allowed =
        let (p, seen, verdict) = evaluated-Judged d e' h in
        (p, seen, Verdict-Rests used p d verdict allowed)

    -- If `evaluate_legacy` denies, then it names one of five reasons, and the licence that the
    -- decision carries is that of the payload that it was given, or of one that the API answered
    -- about the document, of which the named reason is true.
    pub evaluate_legacy_denied :
        (d : LicenseDecision) (e' : E)
        → evaluate_legacy w api config rounds payload input used e ≡ returns (ok d) e'
        → d.allowed ≡ false
        → (p : LicenseApiResponse) × Source api input payload p × Reason p d
    evaluate_legacy_denied d e' h denied =
        let (p, seen, verdict) = evaluated-Judged d e' h in
        (p, seen, Verdict-Reason used p d verdict denied)

    pub evaluate_legacy-ne-err :
        (x : LicenseError) (e' : E)
        → evaluate_legacy w api config rounds payload input used e ≢ returns (err x) e'
    evaluate_legacy-ne-err x e' h = rw h at (
        evaluate_legacy-Judged w api config input used (λ _. Unit {0}) rounds payload e
          (λ _ _ _ _. tt) tt)

    -- A decision of `evaluate_legacy` is "allowed" exactly if it allows and "denied" otherwise,
    -- and its two marks of an offline answer are the ones that it was called with.
    pub evaluate_legacy-Labelled :
        (d : LicenseDecision) (e' : E)
        → evaluate_legacy w api config rounds payload input used e ≡ returns (ok d) e'
        → Labelled used d
    evaluate_legacy-Labelled d e' h =
        let (p, seen, verdict) = evaluated-Judged d e' h in Verdict-Labelled used p d verdict
