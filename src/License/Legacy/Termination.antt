-- ===== src/License/Legacy/Termination.antt =====
-- When `evaluate_legacy` (License/Legacy.antt) ends, and when it does not.
use tunnara.Prelude.{
  ℕ, zero, suc, ◌≤◌, ◌≡◌, ◌≢◌, refl, Bool, true, false, ◌&&◌, Option, none, some, List, [], ◌∷◌,
  unwrap_or, arith, Bool-cases, inl, inr,
}
use tunnara.Prelude.Int.{pos, eqb_ℤ}
use tunnara.License.Models.{
  DateTime, DeviceRecord, LicenseRecord, LicenseApiResponse, DiagnosticItem, LicenseDecision,
  LicenseCheckInput, LicenseConfig,
}
use tunnara.License.Error.{LicenseError}
use tunnara.License.World.{Result, ok, err, Call, running, M, pure, World}
use tunnara.License.Api.{LicenseApi}
use tunnara.License.Cache.{put_payload}
use tunnara.License.Cache.Ending.{put_payload-ended}
use tunnara.License.Rules.{has_ended, attempt-ended, bind-ended, attempt-running}
use tunnara.License.Legacy.{
  find_device, company_failure, device_failure, company_not_found, expired, warning_of,
  after_status, after_register, register_and_retry, missing_company, finish, unregistered_device,
  missing_device, known_device, check_device, after_expiry, known_company, evaluate_body,
  evaluate_legacy,
}

module _ {E : Type 0} (api : LicenseApi E) (input : LicenseCheckInput) where
  -- The API's answers right after it was asked to register the company: it is known.
  abbrev pub CompanySettles : Type 0
  CompanySettles =
      (e : E) (p : LicenseApiResponse)
      → (api.company_status input.company_document (api.register_company input e).1).0 ≡ ok p
      → eqb_ℤ p.status (pos 0) ≡ false

  -- The API's answers right after it was asked to register the device: the company is known
  -- and the device is listed.
  abbrev pub DeviceSettles : Type 0
  DeviceSettles =
      (e : E) (p : LicenseApiResponse)
      → (api.company_status input.company_document (api.register_device input e).1).0 ≡ ok p
      → (eqb_ℤ p.status (pos 0) ≡ false)
        × (find_device p.license (unwrap_or input.device_key "") ≢ none)

  -- The API accepts the registration of the company and goes on answering that it is unknown.
  abbrev pub NeverSettles : Type 0
  NeverSettles =
      (e : E)
      → ((api.register_company input e).0 ≡ ok tt)
        × ((p : LicenseApiResponse) × ((api.company_status input.company_document e).0 ≡ ok p)
            × (eqb_ℤ p.status (pos 0) ≡ true))

module _ {E : Type 0} (w : World E) (api : LicenseApi E) (config : LicenseConfig)
    (input : LicenseCheckInput) (used : Bool) where
  finish-ended :
      (license : LicenseRecord) (device : Option DeviceRecord) (ds : List DiagnosticItem) (e : E)
      → has_ended (finish w api config license used device ds e) ≡ true
  unfolding finish warning_of
  finish-ended license device ds e = ground arith

  unregistered_device-ended :
      (license : LicenseRecord) (ds : List DiagnosticItem) (e : E)
      → has_ended (unregistered_device w api config license used ds e) ≡ true
  unfolding unregistered_device
  unregistered_device-ended license ds e = ground (arith, finish-ended license none ds e)

  known_device-ended :
      (license : LicenseRecord) (device : DeviceRecord) (e : E)
      → has_ended (known_device w api config license input used device e) ≡ true
  unfolding known_device
  known_device-ended license device e = ground arith

  expired-ended : (x : Option DateTime) (e : E) → has_ended (expired w api config x e) ≡ true
  unfolding expired
  expired-ended x e = ground arith

  -- What a registration leaves to be evaluated.
  abbrev Settled : (LicenseApiResponse → M E LicenseDecision) → Call E (Unit {0}) → E → Type 0
  Settled again register e =
      (p : LicenseApiResponse) (e' : E)
      → (api.company_status input.company_document (register e).1).0 ≡ ok p
      → has_ended (again p e') ≡ true

  module _ (again : LicenseApiResponse → M E LicenseDecision)
      (failure : LicenseError → DiagnosticItem)
      (give_up : List DiagnosticItem → M E LicenseDecision)
      (give_up-ended : (ds : List DiagnosticItem) (e : E) → has_ended (give_up ds e) ≡ true) where
    after_status-ended :
        (r : Result LicenseApiResponse) (e : E)
        → ((p : LicenseApiResponse) (e' : E) → r ≡ ok p → has_ended (again p e') ≡ true)
        → has_ended (after_status w api config again input failure give_up r e) ≡ true
    unfolding after_status
    after_status-ended (err x) e h = give_up-ended [] e
    after_status-ended (ok p) e h =
        attempt-ended (put_payload w config.cache_namespace input.company_document p) (λ _. again p)
          e (put_payload-ended w config.cache_namespace input.company_document p e)
          (λ _ e'. h p e' refl)

    after_register-ended :
        (r : Result (Unit {0})) (e : E)
        → ((p : LicenseApiResponse) (e' : E)
            → (api.company_status input.company_document e).0 ≡ ok p
            → has_ended (again p e') ≡ true)
        → has_ended (after_register w api config again input failure give_up r e) ≡ true
    unfolding after_register
    after_register-ended (err x) e h = give_up-ended (failure x ∷ []) e
    after_register-ended (ok _) e h =
        after_status-ended (api.company_status input.company_document e).0
          (api.company_status input.company_document e).1 h

    register_and_retry-ended :
        (register : Call E (Unit {0})) (e : E)
        → Settled again register e
        → has_ended (register_and_retry w api config again input failure give_up register e) ≡ true
    unfolding register_and_retry
    register_and_retry-ended register e h = after_register-ended (register e).0 (register e).1 h

  module _ (again : LicenseApiResponse → M E LicenseDecision) where
    missing_company-ended :
        (p : LicenseApiResponse) (e : E)
        → Settled again (api.register_company input) e
        → has_ended (missing_company w api config again p input used e) ≡ true
    unfolding missing_company
    missing_company-ended p e h = ground (
      arith,
      register_and_retry-ended again company_failure (λ ds. pure (company_not_found p used ds))
          (λ _ _. refl) (api.register_company input) e h,
    )

    missing_device-ended :
        (license : LicenseRecord) (e : E)
        → Settled again (api.register_device input) e
        → has_ended (missing_device w api config again license input used e) ≡ true
    unfolding missing_device
    missing_device-ended license e h = ground (
      arith,
      unregistered_device-ended license [] e,
      register_and_retry-ended again device_failure (unregistered_device w api config license used)
          (unregistered_device-ended license) (api.register_device input) e h,
    )

    check_device-ended :
        (license : LicenseRecord) (found : Option DeviceRecord) (e : E)
        → (found ≡ none → Settled again (api.register_device input) e)
        → has_ended (check_device w api config again license input used found e) ≡ true
    unfolding check_device
    check_device-ended license none e h = missing_device-ended license e (h refl)
    check_device-ended license (some device) e h = known_device-ended license device e

    known_company-ended :
        (license : LicenseRecord) (e : E)
        → ((e' : E)
            → find_device license (unwrap_or input.device_key "") ≡ none
            → Settled again (api.register_device input) e')
        → has_ended (known_company w api config again license input used e) ≡ true
    unfolding known_company after_expiry
    known_company-ended license e h =
        elim (Bool-cases (license.blocked && config.block_on_company_blocked)) [
          | inl blocked ↦ rw blocked
          | inr free ↦ rw free (
              bind-ended (expired w api config license.expires_at)
                (after_expiry w api config again license input used) e
                (expired-ended license.expires_at e)
                (elim [
                  | true ↦ λ e'. refl
                  | false ↦ λ e'.
                      check_device-ended license
                        (find_device license (unwrap_or input.device_key "")) e' (h e')
                ]))
        ]

  -- A payload of a known company with the device listed needs no second round.
  evaluate_settled :
      (fuel : ℕ) (p : LicenseApiResponse) (e : E)
      → eqb_ℤ p.status (pos 0) ≡ false
      → find_device p.license (unwrap_or input.device_key "") ≢ none
      → has_ended (evaluate_legacy w api config (suc fuel) p input used e) ≡ true
  unfolding evaluate_legacy evaluate_body
  evaluate_settled fuel p e known listed =
      rw known (known_company-ended _ p.license e (λ e' absent. absurd (listed absent)))

  evaluate_known :
      (fuel : ℕ) (p : LicenseApiResponse) (e : E)
      → DeviceSettles api input
      → eqb_ℤ p.status (pos 0) ≡ false
      → has_ended (evaluate_legacy w api config (suc (suc fuel)) p input used e) ≡ true
  unfolding evaluate_legacy evaluate_body
  evaluate_known fuel p e settles known = rw known (
      known_company-ended _ p.license e (λ e₁ absent p' e₂ status.
        let (known', listed) = settles e₁ p' status in evaluate_settled fuel p' e₂ known' listed))

  evaluate_within_three :
      (fuel : ℕ) (p : LicenseApiResponse) (e : E)
      → CompanySettles api input
      → DeviceSettles api input
      → has_ended (evaluate_legacy w api config (suc (suc (suc fuel))) p input used e) ≡ true
  unfolding evaluate_legacy evaluate_body
  evaluate_within_three fuel p e company device = elim (Bool-cases (eqb_ℤ p.status (pos 0))) [
    | inl unknown ↦ rw unknown (
        missing_company-ended _ p e
          (λ p' e' status. evaluate_known fuel p' e' device (company e p' status)))
    | inr known ↦ evaluate_known (suc fuel) p e device known
  ]

  -- If every payload that the API answers after registering the company is of a known company,
  -- and every payload that it answers after registering the device lists the device of a known
  -- company, then three rounds of `evaluate_legacy` are enough: it ends on every payload.
  pub evaluate_legacy_ends :
      (rounds : ℕ) (p : LicenseApiResponse) (e : E)
      → CompanySettles api input
      → DeviceSettles api input
      → 3 ≤ rounds
      → has_ended (evaluate_legacy w api config rounds p input used e) ≡ true
  evaluate_legacy_ends (suc (suc (suc fuel))) p e company device h =
      evaluate_within_three fuel p e company device
  evaluate_legacy_ends zero p e company device h = absurd (omega arith)
  evaluate_legacy_ends (suc zero) p e company device h = absurd (omega arith)
  evaluate_legacy_ends (suc (suc zero)) p e company device h = absurd (omega arith)

  register_loops :
      (again : LicenseApiResponse → M E LicenseDecision)
      (give_up : List DiagnosticItem → M E LicenseDecision) (e : E)
      → NeverSettles api input
      → ((p : LicenseApiResponse) (e' : E) → eqb_ℤ p.status (pos 0) ≡ true → again p e' ≡ running)
      → register_and_retry w api config again input company_failure give_up
          (api.register_company input)
          e
        ≡ running
  unfolding register_and_retry after_register after_status
  register_loops again give_up e never loops =
      let (p, status, unknown) = (never (api.register_company input e).1).1 in
      rw ((never e).0, after_register)
        (rw (status, after_status)
          (attempt-running (put_payload w config.cache_namespace input.company_document p)
            (λ _. again p) _ (λ _ e'. loops p e' unknown)))

  -- Where the company may be registered automatically, and the API accepts its registration but
  -- goes on answering that it is unknown, `evaluate_legacy` does not end: however many rounds
  -- it is given, it still runs.
  pub evaluate_legacy_diverges :
      (rounds : ℕ) (p : LicenseApiResponse) (e : E)
      → NeverSettles api input
      → unwrap_or input.allow_company_auto_create config.auto_register_company_on_missing ≡ true
      → eqb_ℤ p.status (pos 0) ≡ true
      → evaluate_legacy w api config rounds p input used e ≡ running
  unfolding evaluate_legacy evaluate_body missing_company
  evaluate_legacy_diverges zero p e never auto unknown = refl
  evaluate_legacy_diverges (suc rounds) p e never auto unknown = rw unknown (
      rw auto (
        register_loops (λ p'. evaluate_legacy w api config rounds p' input used)
          (λ ds. pure (company_not_found p used ds)) e never
          (λ p' e' unknown'. evaluate_legacy_diverges rounds p' e' never auto unknown')))
