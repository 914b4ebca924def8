-- ===== src/License/Legacy/Sound.antt =====
-- `evaluate_legacy` (License/Legacy.antt) gives a decision with a verdict (License/Legacy/Verdict.antt),
-- part by part.
use tunnara.Prelude.{
  ℕ, zero, suc, ◌≡◌, refl, Bool, true, false, ◌&&◌, Option, none, some, List, [], ◌∷◌, String,
  unwrap_or, str_eq, Bool-cases, inl, inr,
}
use tunnara.Prelude.Int.{pos, eqb_ℤ}
use tunnara.License.Models.{
  DateTime, DeviceRecord, LicenseApiResponse, DiagnosticItem, LicenseDecision, LicenseCheckInput,
  LicenseConfig,
}
use tunnara.License.Error.{LicenseError}
use tunnara.License.World.{Result, ok, err, Call, M, pure, try, World}
use tunnara.License.Api.{LicenseApi}
use tunnara.License.Cache.{put_payload}
use tunnara.License.Rules.{Yields, Yields-bind, Yields-attempt}
use tunnara.License.Legacy.{
  allow, company_failure, device_failure, company_not_found, expired, warning_of, after_status,
  after_register, register_and_retry, missing_company, after_rename, rename_device, finish,
  unregistered_device, missing_device, known_device, device_name_of, check_device, after_expiry,
  known_company, evaluate_body, evaluate_legacy,
}
use tunnara.License.Legacy.Verdict.{
  Expiry, MayUse, device_of, MayRun, granted, unknown_company, company_blocked, license_expired,
  device_unknown, device_blocked, Judged as JudgedBy, Fetches as FetchesBy,
}

module _ {E : Type 0} (w : World E) (api : LicenseApi E) (config : LicenseConfig)
    (input : LicenseCheckInput) (used : Bool) (Seen : LicenseApiResponse → Type 0) where
  abbrev Judged : LicenseDecision → Type 0
  Judged = JudgedBy w api config input used Seen

  abbrev Fetches : Type 0
  Fetches = FetchesBy w api config input used Seen

  expired-Expiry :
      (x : Option DateTime) (e : E) → Yields (Expiry w config input x) (expired w api config x e)
  unfolding expired
  expired-Expiry none e = refl
  expired-Expiry (some t) e = (e, refl)

  warning_of-Yields :
      (x : Option DateTime) (e : E) → Yields (λ _. Unit {0}) (warning_of w api config x e)
  unfolding warning_of
  warning_of-Yields none e = tt
  warning_of-Yields (some t) e = tt

  finish-Judged :
      (p : LicenseApiResponse) (device : Option DeviceRecord) (ds : List DiagnosticItem) (e : E)
      → Seen p
      → MayUse w config input p
      → device_of w config input p ≡ device
      → MayRun w config input device
      → Yields Judged (finish w api config p.license used device ds e)
  unfolding finish
  finish-Judged p device ds e seen may same run =
      Yields-bind (λ _. Unit {0}) Judged (warning_of w api config p.license.expires_at)
        (λ warning. pure (allow used warning p.license device ds)) e
        (warning_of-Yields p.license.expires_at e)
        (λ warning e' _. (p, seen, granted warning ds may (rw same run) (rw same)))

  -- A registration that fails gives up, and one that succeeds starts again.
  module _ (again : LicenseApiResponse → M E LicenseDecision)
      (again-Judged : (p : LicenseApiResponse) (e : E) → Seen p → Yields Judged (again p e))
      (fetches : Fetches) where
    module _ (failure : LicenseError → DiagnosticItem)
        (give_up : List DiagnosticItem → M E LicenseDecision)
        (give_up-Judged : (ds : List DiagnosticItem) (e : E) → Yields Judged (give_up ds e))
        (seen_next : (e : E) (p : LicenseApiResponse)
          → (api.company_status input.company_document e).0 ≡ ok p
          → Seen p) where
      after_status-Judged :
          (r : Result LicenseApiResponse) (e : E)
          → ((p : LicenseApiResponse) → r ≡ ok p → Seen p)
          → Yields Judged (after_status w api config again input failure give_up r e)
      unfolding after_status
      after_status-Judged (err x) e h = give_up-Judged [] e
      after_status-Judged (ok p) e h =
          Yields-attempt Judged (put_payload w config.cache_namespace input.company_document p)
            (λ _. again p) e (λ _ e'. again-Judged p e' (h p refl))

      after_register-Judged :
          (r : Result (Unit {0})) (e : E)
          → Yields Judged (after_register w api config again input failure give_up r e)
      unfolding after_register
      after_register-Judged (err x) e = give_up-Judged (failure x ∷ []) e
      after_register-Judged (ok _) e =
          after_status-Judged (api.company_status input.company_document e).0
            (api.company_status input.company_document e).1 (seen_next e)

      register_and_retry-Judged :
          (register : Call E (Unit {0})) (e : E)
          → Yields Judged (register_and_retry w api config again input failure give_up register e)
      unfolding register_and_retry
      register_and_retry-Judged register e = after_register-Judged (register e).0 (register e).1

    missing_company-Judged :
        (p : LicenseApiResponse) (e : E)
        → Seen p
        → eqb_ℤ p.status (pos 0) ≡ true
        → Yields Judged (missing_company w api config again p input used e)
    unfolding missing_company
    missing_company-Judged p e seen h =
        elim (Bool-cases
          (unwrap_or input.allow_company_auto_create config.auto_register_company_on_missing)) [
            | inl on ↦ rw on (
                register_and_retry-Judged company_failure (λ ds. pure (company_not_found p used ds))
                  (λ ds e'. (p, seen, unknown_company ds h refl)) (fetches (inl on))
                  (api.register_company input) e)
            | inr off ↦ rw off (p, seen, unknown_company [] h refl)
          ]

    missing_device-Judged :
        (p : LicenseApiResponse) (e : E)
        → Seen p
        → MayUse w config input p
        → device_of w config input p ≡ none
        → Yields Judged (missing_device w api config again p.license input used e)
    unfolding missing_device
    missing_device-Judged p e seen may absent =
        elim (Bool-cases
          (unwrap_or input.allow_device_auto_create config.auto_register_device_on_missing)) [
            | inl on ↦ rw on (
                register_and_retry-Judged device_failure
                  (unregistered_device w api config p.license used) unregistered (fetches (inr on))
                  (api.register_device input) e)
            | inr off ↦ rw off (unregistered [] e)
          ]
      where
        unregistered :
            (ds : List DiagnosticItem) (e' : E)
            → Yields Judged (unregistered_device w api config p.license used ds e')
        unregistered ds e' = elim (Bool-cases config.block_on_device_missing) [
          | inl strict ↦ simp strict (p, seen, device_unknown ds may absent strict refl)
          | inr lax ↦ simp lax (finish-Judged p none ds e' seen may absent lax)
        ]

  rename_device-Yields :
      (name : String) (id current : Option String) (e : E)
      → Yields (λ _. Unit {0}) (rename_device w api config input name id current e)
  unfolding rename_device after_rename
  rename_device-Yields name (some id) (some current) e = elim (Bool-cases (str_eq current name)) [
    | inl same ↦ rw same tt
    | inr other ↦ rw other (
        Yields-attempt (λ _. Unit {0}) (try (api.update_device_name id input))
          (after_rename w api config) e (elim [ ok _ ↦ λ e'. tt | err x ↦ λ e'. tt ]))
  ]
  rename_device-Yields name none current e = tt
  rename_device-Yields name (some id) none e = tt

  known_device-Judged :
      (p : LicenseApiResponse) (device : DeviceRecord) (e : E)
      → Seen p
      → MayUse w config input p
      → device_of w config input p ≡ some device
      → Yields Judged (known_device w api config p.license input used device e)
  unfolding known_device
  known_device-Judged p device e seen may same =
      elim (Bool-cases (device.blocked && config.block_on_device_blocked)) [
        | inl blocked ↦ rw blocked (p, seen, device_blocked device may same blocked refl)
        | inr free ↦
            rw free
              (elim (Bool-cases
                (unwrap_or input.allow_device_auto_update config.auto_update_device_name)) [
                  | inl rename ↦ rw rename (
                      Yields-bind (λ _. Unit {0}) Judged
                        (rename_device w api config input (device_name_of input) device.id
                          device.device_name)
                        (finish w api config p.license used (some device)) e
                        (rename_device-Yields (device_name_of input) device.id device.device_name e)
                        (λ ds e' _. finish-Judged p (some device) ds e' seen may same free))
                  | inr keep ↦ rw keep (finish-Judged p (some device) [] e seen may same free)
                ])
      ]

  module _ (again : LicenseApiResponse → M E LicenseDecision)
      (again-Judged : (p : LicenseApiResponse) (e : E) → Seen p → Yields Judged (again p e))
      (fetches : Fetches) where
    check_device-Judged :
        (p : LicenseApiResponse) (found : Option DeviceRecord) (e : E)
        → Seen p
        → MayUse w config input p
        → device_of w config input p ≡ found
        → Yields Judged (check_device w api config again p.license input used found e)
    unfolding check_device
    check_device-Judged p none e seen may same =
        missing_device-Judged again again-Judged fetches p e seen may same
    check_device-Judged p (some device) e seen may same =
        known_device-Judged p device e seen may same

    known_company-Judged :
        (p : LicenseApiResponse) (e : E)
        → Seen p
        → eqb_ℤ p.status (pos 0) ≡ false
        → Yields Judged (known_company w api config again p.license input used e)
    unfolding known_company after_expiry
    known_company-Judged p e seen known =
        elim (Bool-cases (p.license.blocked && config.block_on_company_blocked)) [
          | inl blocked ↦ rw blocked (p, seen, company_blocked known blocked refl)
          | inr free ↦ rw free (
              Yields-bind (Expiry w config input p.license.expires_at) Judged
                (expired w api config p.license.expires_at)
                (after_expiry w api config again p.license input used) e
                (expired-Expiry p.license.expires_at e)
                (elim [
                  | true ↦ λ e' over. (p, seen, license_expired known free over refl)
                  | false ↦ λ e' over.
                      check_device-Judged p (device_of w config input p) e' seen (known, free, over)
                        refl
                ]))
        ]

    evaluate_body-Judged :
        (p : LicenseApiResponse) (e : E)
        → Seen p
        → Yields Judged (evaluate_body w api config again p input used e)
    unfolding evaluate_body
    evaluate_body-Judged p e seen = elim (Bool-cases (eqb_ℤ p.status (pos 0))) [
      | inl unknown ↦
          rw unknown (missing_company-Judged again again-Judged fetches p e seen unknown)
      | inr known ↦ rw known (known_company-Judged p e seen known)
    ]

  pub evaluate_legacy-Judged :
      (fuel : ℕ) (p : LicenseApiResponse) (e : E)
      → Fetches
      → Seen p
      → Yields Judged (evaluate_legacy w api config fuel p input used e)
  unfolding evaluate_legacy
  evaluate_legacy-Judged zero p e fetches seen = tt
  evaluate_legacy-Judged (suc fuel) p e fetches seen =
      evaluate_body-Judged (λ registered. evaluate_legacy w api config fuel registered input used)
        (λ p' e' seen'. evaluate_legacy-Judged fuel p' e' fetches seen') fetches p e seen
