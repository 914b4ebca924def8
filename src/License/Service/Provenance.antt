-- ===== src/License/Service/Provenance.antt =====
-- Where a decision of `check` (License/Service.antt) that allows comes from.
use tunnara.Prelude.{ℕ, ◌≡◌, refl, true, false, Option, none, some, String, Bool-cases, inl, inr}
use tunnara.Prelude.Int.{leb_ℤ}
use tunnara.Prelude.Text.{is_empty}
use tunnara.License.Models.{
  LicenseApiResponse, LicenseDecision, LicenseCheckInput, LicenseConfig, CachedLicenseFile,
}
use tunnara.License.Error.{LicenseError}
use tunnara.License.World.{Result, ok, err, Call, returns, pure, try, ◌>>=◌, World}
use tunnara.License.Api.{LicenseApi}
use tunnara.License.Cache.{put_payload, put_decision, get}
use tunnara.License.Rules.{Allows, Allows-bind, Allows-attempt, Allows-weaken}
use tunnara.License.Legacy.{evaluate_legacy}
use tunnara.License.Legacy.Decisions.{Rests, Source, evaluate_legacy_allowed}
use tunnara.License.Service.{
  only_digits, offline_input, reuse_decision, relabel_decision, reuse_file, after_get,
  try_offline_cache_or_fail, store_decision, after_status, check_legacy, after_resolve,
  check_online, after_prepare, check,
}

module _ {E : Type 0} (w : World E) (api : LicenseApi E) (config : LicenseConfig) where
  -- The cache held this file for the document, and it was young enough when it was used.
  abbrev pub Held : String → CachedLicenseFile → Type 0
  Held document file =
      (e : E) × (e' : E) × (get w config.cache_namespace document e ≡ returns (ok (some file)) e')
      × (leb_ℤ (w.num_days (w.utc_now e').0 file.cached_at) config.offline_max_age_days ≡ true)

  -- The four ways to be allowed.
  pub data Provenance (input : LicenseCheckInput) (d : LicenseDecision) : Type 0 where
    activated : (e : E) → (api.resolve_activation input e).0 ≡ ok d → Provenance input d
    evaluated :
        (payload p : LicenseApiResponse) (e : E)
        → (api.company_status input.company_document e).0 ≡ ok payload
        → Source api input payload p
        → Rests w config input p d
        → Provenance input d
    reused :
        (file : CachedLicenseFile) (old : LicenseDecision)
        → Held input.company_document file
        → file.decision ≡ some old
        → old.allowed ≡ true
        → d ≡ reuse_decision old
        → Provenance input d
    reevaluated :
        (file : CachedLicenseFile) (payload p : LicenseApiResponse)
        → Held input.company_document file
        → file.payload ≡ some payload
        → Source api (offline_input input.company_document) payload p
        → Rests w config (offline_input input.company_document) p d
        → Provenance input d

module _ {E : Type 0} (w : World E) (api : LicenseApi E) (config : LicenseConfig)
    (prepare : LicenseCheckInput → Call E LicenseCheckInput) (fuel : ℕ) where
  abbrev Explained : LicenseCheckInput → LicenseDecision → Type 0
  Explained input d = d.allowed ≡ true → Provenance w api config input d

  reuse_file-Explained :
      (input : LicenseCheckInput) (failure : LicenseError) (file : CachedLicenseFile)
      (decision : Option LicenseDecision) (payload : Option LicenseApiResponse) (e : E)
      → Held w api config input.company_document file
      → file.decision ≡ decision
      → file.payload ≡ payload
      → Allows
          (Explained input)
          (reuse_file w api config prepare fuel input.company_document failure decision payload e)
  unfolding reuse_file
  reuse_file-Explained input failure file (some old) payload e held d p =
      λ allowed. reused file old held d allowed refl
  reuse_file-Explained input failure file none (some payload) e held d p =
      Allows-bind (Explained input)
        (evaluate_legacy w api config fuel payload (offline_input input.company_document) true)
        (λ decision. pure (relabel_decision decision)) e
        (λ decision e' h allowed.
          let (q, source, rests) =
            evaluate_legacy_allowed w config (offline_input input.company_document) api fuel payload
              true e decision e' h allowed in
          reevaluated file payload q held p source rests)
  reuse_file-Explained input failure file none none e held d p = tt

  offline-Explained :
      (input : LicenseCheckInput) (failure : LicenseError) (e : E)
      → Allows
          (Explained input)
          (try_offline_cache_or_fail w api config prepare fuel input.company_document failure e)
  unfolding try_offline_cache_or_fail after_get
  offline-Explained input failure e =
      Allows-bind (Explained input) (get w config.cache_namespace input.company_document)
        (after_get w api config prepare fuel input.company_document failure) e found
    where
      found :
          (cached : Option CachedLicenseFile) (e' : E)
          → get w config.cache_namespace input.company_document e ≡ returns (ok cached) e'
          → Allows
              (Explained input)
              (after_get w api config prepare fuel input.company_document failure cached e')
      found none e' h = tt
      found (some file) e' h =
          elim (Bool-cases
            (leb_ℤ (w.num_days (w.utc_now e').0 file.cached_at) config.offline_max_age_days)) [
              | inl young ↦ rw young (
                  reuse_file-Explained input failure file file.decision file.payload
                    (w.utc_now e').1 (e, e', h, young) refl refl)
              | inr old ↦ rw old tt
            ]

  store_decision-Explained :
      (input : LicenseCheckInput) (d : LicenseDecision) (e : E)
      → Explained input d
      → Allows (Explained input) (store_decision w api config prepare input d e)
  unfolding store_decision
  store_decision-Explained input d e h =
      Allows-attempt (Explained input)
        (put_decision w config.cache_namespace input.company_document d) (λ _. pure d) e
        (λ _ _ _. h)

  check_legacy-Explained :
      (input : LicenseCheckInput) (e : E)
      → Allows (Explained input) (check_legacy w api config prepare fuel input e)
  unfolding check_legacy
  check_legacy-Explained input e =
      answered (api.company_status input.company_document e).0
        (api.company_status input.company_document e).1 refl
    where
      answered :
          (r : Result LicenseApiResponse) (e' : E)
          → (api.company_status input.company_document e).0 ≡ r
          → Allows (Explained input) (after_status w api config prepare fuel input r e')
      answered (err failure) e' h = offline-Explained input failure e'
      answered (ok payload) e' h =
          Allows-attempt (Explained input)
            (put_payload w config.cache_namespace input.company_document payload)
            (λ _.
              evaluate_legacy w api config fuel payload input false
              >>= store_decision w api config prepare input)
            e'
            (λ _ e₁ _.
              Allows-bind (Explained input) (evaluate_legacy w api config fuel payload input false)
                (store_decision w api config prepare input) e₁
                (λ d e₂ done. store_decision-Explained input d e₂ (λ allowed.
                  let (q, source, rests) =
                    evaluate_legacy_allowed w config input api fuel payload false e₁ d e₂ done
                      allowed in
                  evaluated payload q e h source rests)))

  check_online-Explained :
      (input : LicenseCheckInput) (e : E)
      → Allows (Explained input) (check_online w api config prepare fuel input e)
  unfolding check_online
  check_online-Explained input e = elim (Bool-cases config.prefer_resolve_activation) [
    | inl prefer ↦
        simp prefer
          (answered (api.resolve_activation input e).0 (api.resolve_activation input e).1 refl)
    | inr skip ↦ simp skip (check_legacy-Explained input e)
  ]
    where
      answered :
          (r : Result LicenseDecision) (e' : E)
          → (api.resolve_activation input e).0 ≡ r
          → Allows (Explained input) (after_resolve w api config prepare fuel input r e')
      answered (ok d) e' h = store_decision-Explained input d e' (λ _. activated e h)
      answered (err failure) e' h = elim (Bool-cases config.allow_legacy_fallback) [
        | inl fall ↦ simp fall (check_legacy-Explained input e')
        | inr fail ↦ simp fail (offline-Explained input failure e')
      ]

  -- The input that the check works on.
  abbrev pub Prepared : LicenseCheckInput → E → LicenseCheckInput → Type 0
  Prepared given e input =
      ((prepare (record given { company_document = only_digits given.company_document }) e).0
        ≡ ok input)
      × (is_empty input.company_document ≡ false)

  abbrev Traced : LicenseCheckInput → E → LicenseDecision → Type 0
  Traced given e d =
      d.allowed ≡ true
      → (input : LicenseCheckInput) × Prepared given e input × Provenance w api config input d

  after_prepare-Traced :
      (given input : LicenseCheckInput) (e e' : E)
      → (prepare (record given { company_document = only_digits given.company_document }) e).0
        ≡ ok input
      → Allows (Traced given e) (after_prepare w api config prepare fuel input e')
  unfolding after_prepare
  after_prepare-Traced given input e e' h = elim (Bool-cases (is_empty input.company_document)) [
    | inl empty ↦ simp empty tt
    | inr full ↦ simp full (
        Allows-weaken (check_online w api config prepare fuel input e')
          (check_online-Explained input e')
          (λ d explained allowed. (input, (h, full), explained allowed)))
  ]

  check-Traced :
      (given : LicenseCheckInput) (e : E)
      → Allows (Traced given e) (check w api config prepare fuel given e)
  unfolding check
  check-Traced given e =
      prepared
        (prepare (record given { company_document = only_digits given.company_document }) e).0
        (prepare (record given { company_document = only_digits given.company_document }) e).1 refl
    where
      prepared :
          (r : Result LicenseCheckInput) (e' : E)
          → (prepare (record given { company_document = only_digits given.company_document }) e).0
            ≡ r
          → Allows
              (Traced given e)
              ((try (λ _. (r, e')) >>= after_prepare w api config prepare fuel) e)
      prepared (ok input) e' h = after_prepare-Traced given input e e' h
      prepared (err x) e' h = tt

  -- A check that allows worked on a prepared input whose document is not empty, and its decision
  -- is one of four: what the activation endpoint answered; an evaluation of a payload that the
  -- status endpoint answered for the document; the decision in a cached file no older than the
  -- configured age, which itself allowed; or an evaluation of the payload in such a file.
  pub check_allowed :
      (given : LicenseCheckInput) (e : E) (d : LicenseDecision) (e' : E)
      → check w api config prepare fuel given e ≡ returns (ok d) e'
      → d.allowed ≡ true
      → (input : LicenseCheckInput) × Prepared given e input × Provenance w api config input d
  check_allowed given e d e' h allowed = (rw h at (check-Traced given e)) allowed
