-- ===== src/License/World.antt =====
-- What the licensing component calls and does not implement: the clock, the file system, the
-- hash and the JSON codec, as operations on the state `E` of the environment; and the effects
-- of its own code, which are a call's result, an error or a loop that still runs.
use tunnara.Prelude.{◌≡◌, refl, ◌⊎◌, inl, inr, Bool, Option, String}
use tunnara.Prelude.Int.{ℤ}
use tunnara.License.Models.{DateTime, CachedLicenseFile}
use tunnara.License.Error.{LicenseError}

-- `Result<A, LicenseError>`
pub data Result (A : Type 0) : Type 0 where
  ok : A → Result A
  err : LicenseError → Result A

-- A result of a library call, whose error is read only through its text.
pub data Attempt (A : Type 0) : Type 0 where
  done : A → Attempt A
  failed : String → Attempt A

pub Attempt-cases :
    {A : Type 0} (x : Attempt A) → ((a : A) × (x ≡ done a)) ⊎ ((m : String) × (x ≡ failed m))
Attempt-cases (done a) = inl (a, refl)
Attempt-cases (failed m) = inr (m, refl)

-- One call into the environment.
abbrev pub Call : Type 0 → Type 0 → Type 0
Call E A = E → Result A × E

pub data Outcome (E A : Type 0) : Type 0 where
  returns : Result A → E → Outcome E A
  -- the fuel ran out
  running : Outcome E A

abbrev pub M : Type 0 → Type 0 → Type 0
M E A = E → Outcome E A

module _ {E : Type 0} where
  abbrev pub pure : {A : Type 0} → A → M E A
  pure a e = returns (ok a) e

  abbrev pub raise : {A : Type 0} → LicenseError → M E A
  raise x e = returns (err x) e

  infixl 5 ◌>>=◌ ◌>>◌
  abbrev pub ◌>>=◌ : {A B : Type 0} → M E A → (A → M E B) → M E B
  ◌>>=◌ m f e = elim (m e) [
    | returns (ok a) e' ↦ f a e'
    | returns (err x) e' ↦ returns (err x) e'
    | running ↦ running
  ]

  abbrev pub ◌>>◌ : {A B : Type 0} → M E A → M E B → M E B
  m >> k = m >>= λ _. k

  -- `match m.await { … }` and `let _ = m.await`: the result is a value.
  abbrev pub attempt : {A : Type 0} → M E A → M E (Result A)
  attempt m e = elim (m e) [ returns r e' ↦ returns (ok r) e' | running ↦ running ]

  -- A call that cannot fail.
  abbrev pub ask : {A : Type 0} → (E → A × E) → M E A
  ask c e = let (a, e') = c e in returns (ok a) e'

  -- `call.await?`
  abbrev pub try : {A : Type 0} → Call E A → M E A
  try c e = let (r, e') = c e in returns r e'

pub record World (E : Type 0) : Type 0 where
  -- `Utc::now()`
  pub utc_now : E → DateTime × E
  -- `a.signed_duration_since(b).num_days()`
  pub num_days : DateTime → DateTime → ℤ
  -- `a < b`
  pub is_before : DateTime → DateTime → Bool
  -- `ProjectDirs::from(…).data_local_dir()`
  pub data_local_dir : E → Option String × E
  -- `PathBuf::push` and `Path::parent`
  pub push : String → String → String
  pub parent : String → Option String
  pub exists : String → E → Bool × E
  pub read_to_string : String → E → Attempt String × E
  pub create_dir_all : String → E → Attempt (Unit {0}) × E
  pub write : String → String → E → Attempt (Unit {0}) × E
  -- `hex::encode(Sha256::digest(…))`
  pub sha256_hex : String → String
  -- `serde_json::to_string_pretty` and `serde_json::from_str`
  pub to_json : CachedLicenseFile → Attempt String
  pub from_json : String → Attempt CachedLicenseFile
