-- ===== src/License/Cache/Ending.antt =====
-- Every operation of the offline cache ends, whatever the file system answers.
use tunnara.Prelude.{◌≡◌, true, String, arith}
use tunnara.License.Models.{LicenseApiResponse, LicenseDecision, CachedLicenseFile}
use tunnara.License.World.{World}
use tunnara.License.Rules.{has_ended}
use tunnara.License.Cache.{write, put_payload, put_decision, get}

module _ {E : Type 0} (w : World E) (namespace document : String) where
  write-ended :
      (cached : CachedLicenseFile) (e : E) → has_ended (write w namespace document cached e) ≡ true
  unfolding write
  write-ended cached e = ground arith

  pub put_payload-ended :
      (payload : LicenseApiResponse) (e : E)
      → has_ended (put_payload w namespace document payload e) ≡ true
  unfolding put_payload
  put_payload-ended payload e = ground arith

  pub put_decision-ended :
      (decision : LicenseDecision) (e : E)
      → has_ended (put_decision w namespace document decision e) ≡ true
  unfolding put_decision
  put_decision-ended decision e = ground arith

  pub get-ended : (e : E) → has_ended (get w namespace document e) ≡ true
  unfolding get
  get-ended e = ground arith
