-- ===== src/License/Calls.antt =====
-- Calls in sequence: `?` on each result, with the state of the environment passed along.
use tunnara.License.Error.{LicenseError}
use tunnara.License.World.{Result, ok, err, Call}

module _ {E : Type 0} where
  infixl 5 ◌>>=◌ ◌>>◌
  abbrev and_call : {A B : Type 0} → Result A → (A → Call E B) → Call E B
  and_call (ok a) f = f a
  and_call (err x) f = λ e. (err x, e)

  abbrev pub ◌>>=◌ : {A B : Type 0} → Call E A → (A → Call E B) → Call E B
  ◌>>=◌ c f e = let (r, e') = c e in and_call r f e'

  abbrev pub ◌>>◌ : {A B : Type 0} → Call E A → Call E B → Call E B
  c >> d = c >>= λ _. d

  abbrev pub pure : {A : Type 0} → A → Call E A
  pure a e = (ok a, e)

  abbrev pub raise : {A : Type 0} → LicenseError → Call E A
  raise x e = (err x, e)

  abbrev pub ask : {A : Type 0} → (E → A × E) → Call E A
  ask c e = let (a, e') = c e in (ok a, e')

  abbrev pub result : {A : Type 0} → Result A → Call E A
  result r e = (r, e)
