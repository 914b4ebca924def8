-- ===== src/License/Legacy/Verdict.antt =====
-- What a decision of `evaluate_legacy` (License/Legacy.antt) states about the licence payload
-- that it was made from.
use tunnara.Prelude.{
  ◌≡◌, Bool, true, false, ◌&&◌, ◌⊎◌, Option, none, some, List, [], String, unwrap_or,
}
use tunnara.Prelude.Int.{pos, eqb_ℤ}
use tunnara.License.Models.{
  DateTime, DeviceRecord, LicenseApiResponse, DiagnosticItem, LicenseDecision, LicenseCheckInput,
  LicenseConfig,
}
use tunnara.License.World.{ok, World}
use tunnara.License.Api.{LicenseApi}
use tunnara.License.Legacy.{deny, allow, find_device, company_not_found}

module _ {E : Type 0} (w : World E) (config : LicenseConfig) (input : LicenseCheckInput) where
  -- `over` is the answer to "has it expired?" at some reading of the clock.
  abbrev pub Expiry : Option DateTime → Bool → Type 0
  Expiry none over = over ≡ false
  Expiry (some expires_at) over =
      (e : E) × (over ≡ (w.is_before expires_at (w.utc_now e).0 && config.block_on_expired))

  -- The company is known and not blocked, and the licence has not expired.
  abbrev pub MayUse : LicenseApiResponse → Type 0
  MayUse p =
      (eqb_ℤ p.status (pos 0) ≡ false)
      × ((p.license.blocked && config.block_on_company_blocked) ≡ false)
      × Expiry p.license.expires_at false

  -- The device that the input names, as the licence lists it.
  abbrev pub device_of : LicenseApiResponse → Option DeviceRecord
  device_of p = find_device p.license (unwrap_or input.device_key "")

  abbrev pub MayRun : Option DeviceRecord → Type 0
  MayRun none = config.block_on_device_missing ≡ false
  MayRun (some device) = (device.blocked && config.block_on_device_blocked) ≡ false

  module _ (used : Bool) where
    -- The six kinds of decision, each with what it says of the payload `p`.
    pub data Verdict (p : LicenseApiResponse) (d : LicenseDecision) : Type 0 where
      granted :
          (warning : Option String) (ds : List DiagnosticItem)
          → MayUse p
          → MayRun (device_of p)
          → d ≡ allow used warning p.license (device_of p) ds
          → Verdict p d
      unknown_company :
          (ds : List DiagnosticItem)
          → eqb_ℤ p.status (pos 0) ≡ true
          → d ≡ company_not_found p used ds
          → Verdict p d
      company_blocked :
          eqb_ℤ p.status (pos 0) ≡ false
          → (p.license.blocked && config.block_on_company_blocked) ≡ true
          → d
            ≡ deny "empresa bloqueada no serviço de licenciamento" "COMPANY_BLOCKED"
                "validate_company" used p.license none []
          → Verdict p d
      license_expired :
          eqb_ℤ p.status (pos 0) ≡ false
          → (p.license.blocked && config.block_on_company_blocked) ≡ false
          → Expiry p.license.expires_at true
          → d ≡ deny "licença expirada" "LICENSE_EXPIRED" "validate_license" used p.license none []
          → Verdict p d
      device_unknown :
          (ds : List DiagnosticItem)
          → MayUse p
          → device_of p ≡ none
          → config.block_on_device_missing ≡ true
          → d
            ≡ deny "dispositivo não autorizado para esta licença" "DEVICE_NOT_FOUND"
                "resolve_device" used p.license none ds
          → Verdict p d
      device_blocked :
          (device : DeviceRecord)
          → MayUse p
          → device_of p ≡ some device
          → (device.blocked && config.block_on_device_blocked) ≡ true
          → d
            ≡ deny "dispositivo bloqueado para esta licença" "DEVICE_BLOCKED" "validate_device" used
                p.license
                (some device)
                []
          → Verdict p d

module _ {E : Type 0} (w : World E) (api : LicenseApi E) (config : LicenseConfig)
    (input : LicenseCheckInput) (used : Bool) (Seen : LicenseApiResponse → Type 0) where
  -- A decision on a payload that was seen.
  abbrev pub Judged : LicenseDecision → Type 0
  Judged d = (p : LicenseApiResponse) × Seen p × Verdict w config input used p d

  -- What the API answers is seen, where a registration may ask it again.
  abbrev pub Fetches : Type 0
  Fetches =
      (unwrap_or input.allow_company_auto_create config.auto_register_company_on_missing ≡ true)
        ⊎ (unwrap_or input.allow_device_auto_create config.auto_register_device_on_missing ≡ true)
      → (e : E) (p : LicenseApiResponse) → (api.company_status input.company_document e).0 ≡ ok p
      → Seen p
